-- ===== src/Connector/Invariant/Store.antt =====
-- The reading of results keeps the invariant.
use mysql_connect_pool.Prelude.{ℕ, zero, suc, refl, Bool, false, [], ◌∷◌, Option, arith}
use mysql_connect_pool.Connector.State.{
  Libraries, Connector, Outcome, resting, next_result, output_error_task, get_result_task,
  handle_closed, result_callback, notify,
}
use mysql_connect_pool.Connector.Results.{
  output_error, store_with, next_with, get_with, store_rounds, start_store_result, get_result,
}
use mysql_connect_pool.Connector.Invariant.{
  IsStable, Good, Ensures, has_completion-append, has_exec-append,
}

module _ {l : Libraries} where
  pub output_error-Good : (s : Connector l) → IsStable s → Ensures (Good s) (output_error s)
  unfolding output_error handle_closed
  output_error-Good s v = ground arith

  -- `startStoreResult` keeps the invariant if `getResult` does.
  store_with-Good :
      (get : Option l.Res → Connector l → Outcome l)
      → ((r : Option l.Res) (t : Connector l) → IsStable t → Ensures (Good t) (get r t))
      → (queued : Bool) (s : Connector l) → IsStable s
      → Ensures (Good s) (store_with get queued s)
  unfolding store_with
  store_with-Good get keep queued s v =
      let (w, ret, h) = l.store_result_start s.handle in
      let done = record s { exec = resting; wait = w; handle = h } in
      ground (
        arith,
        has_completion-append s.tasks output_error_task refl,
        has_completion-append s.tasks (get_result_task ret) refl,
        has_exec-append s.tasks (output_error_task ∷ []),
        has_exec-append s.tasks (get_result_task ret ∷ []),
        keep ret done,
        output_error-Good done,
      )

  -- `getResult` keeps it if `startStoreResult(false)` does.
  get_with-Good :
      (store : Connector l → Outcome l)
      → ((t : Connector l) → IsStable t → Ensures (Good t) (store t))
      → (r : Option l.Res) (s : Connector l) → IsStable s
      → Ensures (Good s) (get_with store r s)
  unfolding get_with next_with
  get_with-Good store keep r s v =
      let u = notify (result_callback r) s in
      let (w, err, h) = l.next_result_start s.handle in
      ground (
        arith,
        keep (record u { exec = next_result; wait = w; handle = h }),
        output_error-Good (record u { exec = resting; wait = w; handle = h }),
      )

  pub store_rounds-Good :
      (n : ℕ) (s : Connector l) → IsStable s → Ensures (Good s) (store_rounds n s)
  unfolding store_rounds
  store_rounds-Good zero s v = tt
  store_rounds-Good (suc n) s v =
      store_with-Good (get_with (store_rounds n))
        (get_with-Good (store_rounds n) (store_rounds-Good n)) false s v

  pub start_store_result-Good :
      (queued : Bool) (s : Connector l)
      → IsStable s
      → Ensures (Good s) (start_store_result queued s)
  unfolding start_store_result
  start_store_result-Good queued s =
      store_with-Good _ (get_with-Good _ (store_rounds-Good (l.results_left s.handle))) queued s

  pub get_result-Good :
      (r : Option l.Res) (s : Connector l) → IsStable s → Ensures (Good s) (get_result r s)
  unfolding get_result
  get_result-Good r s = get_with-Good _ (store_rounds-Good (suc (l.results_left s.handle))) r s
