-- ===== src/Connector/Termination.antt =====
-- Every handler ends: the rounds that the model gives to `getResult` and `startStoreResult` are
-- enough, if the server has only finitely many results left.
use mysql_connect_pool.Prelude.{
  ℕ, zero, suc, ◌≤◌, ◌<◌, ◌≡◌, Bool, true, false, Option, none, some, List, [], ◌∷◌, arith, ◌≢◌,
}
use mysql_connect_pool.Connector.State.{
  Libraries, Connector, WaitStatus, Outcome, running, aborted, stuck, ◌>>=◌, resting, next_result,
  real_query, Task, Query, output_error_task, get_result_task, exec_sql_task, handle_closed,
  set_event_dispatcher, notify, result_callback,
}
use mysql_connect_pool.Connector.Results.{
  output_error, store_with, next_with, get_with, store_rounds, start_store_result, get_result,
}
use mysql_connect_pool.Connector.Sql.{build_sql}
use mysql_connect_pool.Connector.Handlers.{
  event_status, start_set_character_set, continue_set_character_set, continue_connect,
  cmd_real_query, cmd_store_result, cmd_next_result, handle_cmd, handle_event, handle_timeout,
  start_query, start_built, timed_out, exec_sql_in_loop, exec_sql, batch_sql, batch, disconnect,
  run_one, run_first, run_task, Call, event, timeout, task, disconnects, exec, step,
}

-- What `results_left` counts: reading a result leaves it or lowers it, and going on to the next
-- result, where `mysql_more_results` says that there is one, lowers it.
pub record CountsResults (l : Libraries) : Type 0 where
  pub store_left : (h : l.Handle) → l.results_left (l.store_result_start h).2 ≤ l.results_left h
  pub next_left :
      (h : l.Handle)
      → l.more_results h ≡ true
      → l.results_left (l.next_result_start h).2 < l.results_left h

module _ {l : Libraries} where
  abbrev pub Ends : Outcome l → Type 0
  Ends (running s) = Unit
  Ends (aborted s) = Unit
  Ends stuck = ⊥

  Ends-then :
      (o : Outcome l) (f : Connector l → Outcome l)
      → Ends o
      → ((s : Connector l) → Ends (f s))
      → Ends (o >>= f)
  Ends-then (running s) f e h = h s
  Ends-then (aborted s) f e h = tt
  Ends-then stuck f e h = e

  handle_closed-Ends : (s : Connector l) → Ends (handle_closed s)
  unfolding handle_closed
  handle_closed-Ends s = ground arith

  output_error-Ends : (s : Connector l) → Ends (output_error s)
  unfolding output_error
  output_error-Ends s = grind (arith, handle_closed-Ends)

  module _ (counts : CountsResults l) where
    store_with-Ends :
        (n : ℕ) (get : Option l.Res → Connector l → Outcome l)
        → ((r : Option l.Res) (t : Connector l) → l.results_left t.handle ≤ n → Ends (get r t))
        → (queued : Bool) (s : Connector l) → l.results_left s.handle ≤ n
        → Ends (store_with get queued s)
    unfolding store_with
    store_with-Ends n get ends queued s h =
        let (w, ret, k) = l.store_result_start s.handle in
        let done = record s { exec = resting; wait = w; handle = k } in
        ground (arith, ends ret done, output_error-Ends done, counts.store_left s.handle)

    get_with-Ends :
        (n : ℕ) (store : Connector l → Outcome l)
        → ((t : Connector l) → l.results_left t.handle < n → Ends (store t))
        → (r : Option l.Res) (s : Connector l) → l.results_left s.handle ≤ n
        → Ends (get_with store r s)
    unfolding get_with next_with
    get_with-Ends n store ends r s h =
        let u = notify (result_callback r) s in
        let (w, err, k) = l.next_result_start s.handle in
        ground (
          arith,
          ends (record u { exec = next_result; wait = w; handle = k }),
          output_error-Ends (record u { exec = resting; wait = w; handle = k }),
          counts.next_left s.handle,
        )

    store_rounds-Ends :
        (n : ℕ) (s : Connector l) → l.results_left s.handle < n → Ends (store_rounds n s)
    unfolding store_rounds
    store_rounds-Ends zero s h = elim h [ ]
    store_rounds-Ends (suc n) s h =
        store_with-Ends n (get_with (store_rounds n))
          (get_with-Ends n (store_rounds n) (store_rounds-Ends n)) false s (omega arith)

    start_store_result-Ends : (queued : Bool) (s : Connector l) → Ends (start_store_result queued s)
    unfolding start_store_result
    start_store_result-Ends queued s =
        let n = l.results_left s.handle in
        store_with-Ends n (get_with (store_rounds n))
          (get_with-Ends n (store_rounds n) (store_rounds-Ends n)) queued s (omega arith)

    get_result-Ends : (r : Option l.Res) (s : Connector l) → Ends (get_result r s)
    unfolding get_result
    get_result-Ends r s =
        let n = suc (l.results_left s.handle) in
        get_with-Ends n (store_rounds n) (store_rounds-Ends n) r s (omega arith)

    cmd_real_query-Ends : (w : WaitStatus) (s : Connector l) → Ends (cmd_real_query w s)
    unfolding cmd_real_query
    cmd_real_query-Ends status s =
        let (w, err, h) = l.real_query_cont s.handle status in
        let t = record s { wait = w; handle = h } in
        ground (
          arith,
          output_error-Ends (record t { exec = resting }),
          Ends-then (start_store_result false t) (λ u. running (set_event_dispatcher u))
              (start_store_result-Ends false t) (λ u. tt),
        )

    cmd_store_result-Ends : (w : WaitStatus) (s : Connector l) → Ends (cmd_store_result w s)
    unfolding cmd_store_result
    cmd_store_result-Ends status s =
        let (w, ret, h) = l.store_result_cont s.handle status in
        let t = record s { wait = w; handle = h } in
        ground (
          arith,
          output_error-Ends (record t { exec = resting }),
          Ends-then (get_result ret t) (λ u. running (set_event_dispatcher u))
              (get_result-Ends ret t) (λ u. tt),
        )

    cmd_next_result-Ends : (w : WaitStatus) (s : Connector l) → Ends (cmd_next_result w s)
    unfolding cmd_next_result
    cmd_next_result-Ends status s =
        let (w, err, h) = l.next_result_cont s.handle status in
        let t = record s { wait = w; handle = h } in
        ground (
          arith,
          output_error-Ends (record t { exec = resting }),
          Ends-then (start_store_result false t) (λ u. running (set_event_dispatcher u))
              (start_store_result-Ends false t) (λ u. tt),
        )

    handle_cmd-Ends : (w : WaitStatus) (s : Connector l) → Ends (handle_cmd w s)
    unfolding handle_cmd
    handle_cmd-Ends w s = ground (
      arith,
      cmd_real_query-Ends w s,
      cmd_store_result-Ends w s,
      cmd_next_result-Ends w s,
      handle_closed-Ends s,
    )

    start_query-Ends : (sql : List ℕ) (s : Connector l) → Ends (start_query sql s)
    unfolding start_query
    start_query-Ends sql s =
        let (w, err, h) = l.real_query_start s.handle sql in
        ground (
          arith,
          start_store_result-Ends true (record s { wait = w; handle = h; exec = real_query }),
        )

    start_built-Ends : (o : Option (List ℕ)) (s : Connector l) → Ends (start_built o s)
    unfolding start_built
    start_built-Ends none s = tt
    start_built-Ends (some text) s =
        Ends-then (start_query text s) _ (start_query-Ends text s) (λ t. tt)

    exec_sql_in_loop-Ends : (q : Query) (s : Connector l) → Ends (exec_sql_in_loop q s)
    unfolding exec_sql_in_loop
    exec_sql_in_loop-Ends q s = ground (
      arith,
      start_built-Ends (build_sql (l.real_escape_string s.handle) q.parameters q.sql)
          (record s { callback = true; working = true; catches = q.catches }),
    )

    run_first-Ends : (ts : List (Task l)) (s : Connector l) → Ends (run_first ts s)
    unfolding run_first run_one
    run_first-Ends [] s = tt
    run_first-Ends (output_error_task ∷ rest) s = output_error-Ends _
    run_first-Ends (get_result_task r ∷ rest) s = get_result-Ends r _
    run_first-Ends (exec_sql_task q ∷ rest) s = exec_sql_in_loop-Ends q _

    continue_connect-Ends : (w : WaitStatus) (s : Connector l) → Ends (continue_connect w s)
    unfolding continue_connect start_set_character_set handle_closed
    continue_connect-Ends w s = ground arith

    continue_set_character_set-Ends :
        (w : WaitStatus) (s : Connector l) → Ends (continue_set_character_set w s)
    unfolding continue_set_character_set handle_closed
    continue_set_character_set-Ends w s = ground arith

    step-Ends : (c : Call) (s : Connector l) → Ends (step c s)
    unfolding step handle_event handle_timeout exec_sql run_task batch_sql disconnect
    step-Ends (event revents) s =
        let w = event_status revents s.wait in
        ground (
          arith,
          continue_connect-Ends w s,
          continue_set_character_set-Ends w s,
          handle_cmd-Ends w s,
        )
    step-Ends timeout s =
        ground
          (arith, continue_connect-Ends timed_out s, continue_set_character_set-Ends timed_out s)
    step-Ends task s = run_first-Ends s.tasks s
    step-Ends disconnects s = tt
    step-Ends batch s = ground arith
    step-Ends (exec in_loop_thread q) s = ground (arith, exec_sql_in_loop-Ends q s)

    Ends-ne-stuck : (o : Outcome l) → Ends o → o ≢ stuck
    Ends-ne-stuck (running s) e h = cc
    Ends-ne-stuck (aborted s) e h = cc
    Ends-ne-stuck stuck e h = e

    -- If the server's results are counted down as `CountsResults` says, no call of a handler runs
    -- out of rounds, whatever the state it is made in.
    pub step-ne-stuck : (c : Call) (s : Connector l) → step c s ≢ stuck
    step-ne-stuck c s = Ends-ne-stuck (step c s) (step-Ends c s)
