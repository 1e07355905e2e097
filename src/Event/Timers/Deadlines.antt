-- ===== src/Event/Timers/Deadlines.antt =====
-- event/EventLoop.cpp: runAt, runAfter, runEvery, invalidateTimer and resetTimerQueue, over
-- `addTimer` of time/TimerQueue.cpp. A delay or an interval, a `double` in the source, is the
-- time in nanoseconds that it stands for, not negative; a time point before the start of the steady
-- clock is 0. What the clocks show is an argument, in nanoseconds for the wall clock too, which shows
-- whole microseconds.
use mysql_connect_pool.Prelude.{
  ℕ, ◌+◌, ◌-◌, ◌≤◌, ◌≡◌, Bool, true, not, ◌&&◌, Option, none, some, List, [], ◌∷◌, ◌++◌, false,
  if◌then◌else◌, arith,
}
use mysql_connect_pool.Time.Timer.{Timer, make_timer, next_id}
use mysql_connect_pool.Time.TimerQueue.{Effect, add, cancel, contains}
use mysql_connect_pool.Time.TimerQueue.Order.{IsReady, execute-IsReady}
use mysql_connect_pool.Time.TimerQueue.Due.{has_id, HasCallbacks}
use mysql_connect_pool.Time.TimerQueue.Cancel.{Round, fires, run_rounds}
use mysql_connect_pool.Time.TimerQueue.Waiting.{
  IsCalm, AllEarly, added-IsWaiting, run_rounds-IsWaiting,
}
use mysql_connect_pool.Event.Timers.{ask, reset_fd, Timed, do_job, run_in_loop}

module _ {F : Type 0} where
  -- `addTimer`, with the number of timers made so far: the id, the number after it and the loop.
  unfoldable pub add_timer :
      (in_thread : Bool) → Option F → (when interval created : ℕ) → Timed F → ℕ × ℕ × Timed F
  unfolding make_timer run_in_loop
  add_timer in_thread cb when interval created s =
      let (t, counter) = make_timer cb when interval created in
      (t.id, counter, run_in_loop in_thread (ask (add t)) s)

  -- `now` is `DateTime::now`, `steady` the steady clock.
  unfoldable pub run_at :
      (in_thread : Bool) → (time now steady : ℕ) → Option F → ℕ → Timed F → ℕ × ℕ × Timed F
  unfolding add_timer
  run_at in_thread time now steady cb created s =
      add_timer in_thread cb (steady + time - now) 0 created s

  -- `date` is `DateTime::date`, read before `now`.
  unfoldable pub run_after :
      (in_thread : Bool) → (delay date now steady : ℕ) → Option F → ℕ → Timed F → ℕ × ℕ × Timed F
  unfolding run_at
  run_after in_thread delay date now steady cb created s =
      run_at in_thread (date + delay) now steady cb created s

  unfoldable pub run_every :
      (in_thread : Bool) → (interval steady : ℕ) → Option F → ℕ → Timed F → ℕ × ℕ × Timed F
  unfolding add_timer
  run_every in_thread interval steady cb created s =
      add_timer in_thread cb (steady + interval) interval created s

  -- `EventLoop::invalidateTimer`, which does nothing while the loop is not running.
  unfoldable pub invalidate_running : (in_thread : Bool) → ℕ → Timed F → Timed F
  unfolding run_in_loop
  invalidate_running in_thread i s =
      if s.loop.looping && not s.loop.quitting then run_in_loop in_thread (ask (cancel i)) s else s

  -- `resetTimerQueue`; `none` is another thread than the loop's or a loop that is looping.
  unfoldable pub reset_timer_queue : (in_thread : Bool) → Timed F → Option (Timed F)
  unfolding run_in_loop
  reset_timer_queue in_thread s =
      if in_thread && not s.loop.looping then some (run_in_loop in_thread reset_fd s) else none

  module _ (effects : ℕ → F → Effect F) where
    -- In the loop's thread, on a queue of timers that is in order, whose timers have callbacks and
    -- other ids: `runAfter` leaves the queue in order with the timerfd set to its first time. Whatever
    -- is asked of the queue then, and however often the timerfd fires before the timer's time, the
    -- function does not run; and it does when the timerfd fires at the end of the delay or later. The
    -- timer's time is the delay from now on, less what the wall clock went on between its two readings
    -- in the call, which has not gone back; neither what is asked nor a callback invalidates the
    -- timer, adds a timer of its id or one without a callback, and no callback throws.
    pub run_after-RanIt :
        (delay date wall steady created now clock : ℕ) (f : F) (rs : List (Round F)) (s : Timed F)
        → date ≤ wall
        → IsReady s.timer_queue
        → HasCallbacks s.timer_queue.timers
        → has_id (next_id created) s.timer_queue.timers ≡ false
        → ((now : ℕ) (g : F) → IsCalm (next_id created) (effects now g))
        → AllEarly (next_id created) (steady + (date + delay) - wall) rs
        → steady + delay ≤ now
        → let (i, counter, t) = run_after true delay date wall steady (some f) created s in
          IsReady t.timer_queue
          × (contains i (run_rounds effects rs t.timer_queue) ≡ false)
          × (contains i (run_rounds effects (rs ++ (fires now clock ∷ [])) t.timer_queue) ≡ true)
    unfolding run_after do_job
    run_after-RanIt delay date wall steady created now clock f rs s d v c other calm early h =
        let t : Timer F = record {
          callback = some f;
          when = steady + (date + delay) - wall;
          interval = 0;
          id = next_id created;
        } in
        let ready = execute-IsReady (add t) s.timer_queue v in
        let (before, at_last) =
          run_rounds-IsWaiting effects t.id t.when now clock calm rs _ early ready.sorted
            (added-IsWaiting t s.timer_queue c (λ x. cc) other) (omega arith) in
        (ready, before, at_last)
