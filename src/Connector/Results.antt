-- ===== src/Connector/Results.antt =====
-- The reading of results: `outputError`, `startStoreResult` and `getResult`
-- (MySQLImpl/MySQLConnector.cpp). The last two call each other for as long as results are there at
-- once; the model's rounds are bounded by `results_left`.
use mysql_connect_pool.Prelude.{
  ℕ, zero, suc, Bool, false, not, ◌||◌, Option, none, some, ◌==◌, if◌then◌else◌,
}
use mysql_connect_pool.Event.Mask.{none_event}
use mysql_connect_pool.Connector.State.{
  Libraries, Connector, Outcome, running, stuck, ◌>>=◌, resting, store_result, next_result,
  exception_callback, idle_callback, result_callback, output_error_task, get_result_task, is_zero,
  notify, queue_in_loop, fatal, assert, handle_closed,
}

-- `!ret && mysql_errno(…)`
unfoldable pub failed : (l : Libraries) → Option l.Res → l.Handle → Bool
failed l none h = not (l.mysql_errno h == 0)
failed l (some r) h = false

module _ {l : Libraries} where
  -- `errorNo == CR_SERVER_GONE_ERROR || errorNo == CR_SERVER_LOST`
  unfoldable pub connection_lost : Connector l → Bool
  connection_lost s =
      (l.mysql_errno s.handle == l.server_gone) || (l.mysql_errno s.handle == l.server_lost)

  -- `if (isWorking_) { … }` of `outputError`. A call of an empty `std::function` throws.
  unfoldable pub give_up_query : Connector l → Outcome l
  give_up_query s =
      if s.working
      then (do
        t ← assert s.catches s
        let u = record (notify exception_callback t) {
          catches = false;
          callback = false;
          working = false;
        }
        running (if connection_lost u then u else notify idle_callback u))
      else running s

  unfoldable pub output_error : Connector l → Outcome l
  unfolding give_up_query
  output_error s = do
    s₀ ← assert s.has_handle (record s { watch = none_event })
    s₁ ← fatal s₀
    s₂ ← fatal s₁
    s₃ ← give_up_query s₂
    if connection_lost s₃ then handle_closed s₃ else running s₃

  -- `startStoreResult`, with `getResult` as an argument.
  unfoldable pub store_with :
      (Option l.Res → Connector l → Outcome l) → Bool → Connector l → Outcome l
  unfolding failed
  store_with get queued s =
      let (w, ret, h) = l.store_result_start s.handle in
      let waiting = record s { exec = store_result; wait = w; handle = h } in
      let done = record s { exec = resting; wait = w; handle = h } in
      if is_zero w
      then (if failed l ret h
          then (if queued
              then running (queue_in_loop output_error_task done)
              else output_error done)
          else (if queued
              then running (queue_in_loop (get_result_task ret) done)
              else get ret done))
      else running waiting

  -- `getResult` once the result callback has run.
  unfoldable pub next_with : (Connector l → Outcome l) → Connector l → Outcome l
  next_with store u =
      let (w, err, h) = l.next_result_start u.handle in
      let next = record u { exec = next_result; wait = w; handle = h } in
      if l.more_results u.handle
      then (if is_zero w
          then (if err
              then (fatal (record next { exec = resting }) >>= output_error)
              else store next)
          else running next)
      else running
          (notify idle_callback (record u { callback = false; catches = false; working = false }))

  -- `getResult`, with `startStoreResult(false)` as an argument.
  unfoldable pub get_with : (Connector l → Outcome l) → Option l.Res → Connector l → Outcome l
  unfolding next_with
  get_with store ret s = assert s.has_handle s >>= λ s₁.
      if s₁.working
      then (assert s₁.callback s₁ >>= λ s₂. next_with store (notify (result_callback ret) s₂))
      else running s₁

  -- `startStoreResult(false)` with a number of rounds.
  unfoldable pub store_rounds : ℕ → Connector l → Outcome l
  store_rounds zero s = stuck
  store_rounds (suc n) s = store_with (get_with (store_rounds n)) false s

  unfoldable pub start_store_result : Bool → Connector l → Outcome l
  unfolding store_rounds
  start_store_result queued s =
      store_with (get_with (store_rounds (l.results_left s.handle))) queued s

  unfoldable pub get_result : Option l.Res → Connector l → Outcome l
  unfolding store_rounds
  get_result ret s = get_with (store_rounds (suc (l.results_left s.handle))) ret s
