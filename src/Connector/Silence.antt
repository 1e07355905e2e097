-- ===== src/Connector/Silence.antt =====
-- Which calls make no call of the exception callback (MySQLImpl/MySQLConnector.cpp).
use mysql_connect_pool.Prelude.{
  ℕ, zero, suc, ◌≡◌, refl, Bool, true, false, Option, none, some, List, [], ◌∷◌, arith,
}
use mysql_connect_pool.Connector.State.{
  Libraries, Connector, Notice, Outcome, running, aborted, stuck, ◌>>=◌, resting, next_result,
  real_query, Query, exception_callback, handle_closed, set_event_dispatcher, notify,
  result_callback,
}
use mysql_connect_pool.Connector.Results.{
  output_error, store_with, next_with, get_with, store_rounds, start_store_result, get_result,
}
use mysql_connect_pool.Connector.Sql.{build_sql}
use mysql_connect_pool.Connector.Handlers.{start_query, start_built, exec_sql_in_loop}

module _ {l : Libraries} where
  abbrev pub exceptions : List (Notice l) → ℕ
  exceptions [] = 0
  exceptions (exception_callback ∷ ns) = suc (exceptions ns)
  exceptions (_ ∷ ns) = exceptions ns

  -- The predicate holds of the state in which the handler returns, or in which the process ends.
  abbrev pub Always : (Connector l → Type 0) → Outcome l → Type 0
  Always P (running t) = P t
  Always P (aborted t) = P t
  Always P stuck = Unit

  -- The exception callback was not called on the way.
  abbrev pub IsSilent : Connector l → Connector l → Type 0
  IsSilent s t = exceptions t.notices ≡ exceptions s.notices

  pub watch-IsSilent : (s t : Connector l) → IsSilent s t → IsSilent s (set_event_dispatcher t)
  unfolding set_event_dispatcher
  watch-IsSilent s t h = ground arith

  pub then_watch-IsSilent :
      (s : Connector l) (o : Outcome l)
      → Always (IsSilent s) o
      → Always (IsSilent s) (o >>= λ t. running (set_event_dispatcher t))
  then_watch-IsSilent s (running t) g = watch-IsSilent s t g
  then_watch-IsSilent s (aborted t) g = g
  then_watch-IsSilent s stuck g = tt

  pub IsSilent-trans :
      (s t : Connector l) (o : Outcome l)
      → IsSilent s t
      → Always (IsSilent t) o
      → Always (IsSilent s) o
  IsSilent-trans s t (running u) h g = omega arith
  IsSilent-trans s t (aborted u) h g = omega arith
  IsSilent-trans s t stuck h g = tt

  pub handle_closed-IsSilent : (s : Connector l) → Always (IsSilent s) (handle_closed s)
  unfolding handle_closed
  handle_closed-IsSilent s = ground arith

  module _ (ends : l.fatal_returns ≡ false) where
    pub output_error-IsSilent :
        (s t : Connector l) → IsSilent t s → Always (IsSilent t) (output_error s)
    unfolding output_error
    output_error-IsSilent s t h = ground arith

    store_with-IsSilent :
        (get : Option l.Res → Connector l → Outcome l)
        → ((r : Option l.Res) (t : Connector l) → Always (IsSilent t) (get r t))
        → (queued : Bool) (s : Connector l) → Always (IsSilent s) (store_with get queued s)
    unfolding store_with
    store_with-IsSilent get keep queued s =
        let (w, ret, h) = l.store_result_start s.handle in
        let done = record s { exec = resting; wait = w; handle = h } in
        ground (arith, keep ret done, output_error-IsSilent done s refl)

    get_with-IsSilent :
        (store : Connector l → Outcome l)
        → ((t : Connector l) → Always (IsSilent t) (store t))
        → (r : Option l.Res) (s : Connector l) → Always (IsSilent s) (get_with store r s)
    unfolding get_with next_with
    get_with-IsSilent store keep r s =
        let u = notify (result_callback r) s in
        let (w, err, h) = l.next_result_start s.handle in
        ground (
          arith,
          keep (record u { exec = next_result; wait = w; handle = h }),
          output_error-IsSilent (record u { exec = resting; wait = w; handle = h }) s refl,
        )

    store_rounds-IsSilent : (n : ℕ) (s : Connector l) → Always (IsSilent s) (store_rounds n s)
    unfolding store_rounds
    store_rounds-IsSilent zero s = tt
    store_rounds-IsSilent (suc n) s =
        store_with-IsSilent (get_with (store_rounds n))
          (get_with-IsSilent (store_rounds n) (store_rounds-IsSilent n)) false s

    pub start_store_result-IsSilent :
        (queued : Bool) (s : Connector l) → Always (IsSilent s) (start_store_result queued s)
    unfolding start_store_result
    start_store_result-IsSilent queued s =
        store_with-IsSilent _
          (get_with-IsSilent _ (store_rounds-IsSilent (l.results_left s.handle))) queued s

    pub get_result-IsSilent :
        (r : Option l.Res) (s : Connector l) → Always (IsSilent s) (get_result r s)
    unfolding get_result
    get_result-IsSilent r s =
        get_with-IsSilent _ (store_rounds-IsSilent (suc (l.results_left s.handle))) r s

    start_query-IsSilent :
        (sql : List ℕ) (s : Connector l) → Always (IsSilent s) (start_query sql s)
    unfolding start_query
    start_query-IsSilent sql s =
        let (w, err, h) = l.real_query_start s.handle sql in
        ground (
          arith,
          start_store_result-IsSilent true (record s { wait = w; handle = h; exec = real_query }),
        )

    start_built-IsSilent :
        (o : Option (List ℕ)) (s : Connector l) → Always (IsSilent s) (start_built o s)
    unfolding start_built
    start_built-IsSilent none s = refl
    start_built-IsSilent (some text) s =
        then_watch-IsSilent s (start_query text s) (start_query-IsSilent text s)

    pub exec_sql_in_loop-IsSilent :
        (q : Query) (s : Connector l) → Always (IsSilent s) (exec_sql_in_loop q s)
    unfolding exec_sql_in_loop
    exec_sql_in_loop-IsSilent q s = ground (
      arith,
      start_built-IsSilent (build_sql (l.real_escape_string s.handle) q.parameters q.sql)
          (record s { callback = true; working = true; catches = q.catches }),
    )
