-- ===== src/Event/Timers.antt =====
-- time/TimerQueue.cpp over event/EventLoop.cpp: timers that any thread adds and invalidates. What
-- is asked in the loop's thread is done at once, what is asked elsewhere is put into the loop's
-- queue; the timerfd's dispatcher calls `handleRead` while the loop polls.
pub mod Deadlines
pub mod Drain
pub mod Ready
use mysql_connect_pool.Prelude.{
  ℕ, Bool, true, false, Option, none, some, List, [], ◌∷◌, if◌then◌else◌,
}
use mysql_connect_pool.Time.TimerQueue.{
  Effect, TimerQueue, Command, Calls, finished, threw, execute, arm_first, handle_read,
}
use mysql_connect_pool.Event.Loop.{
  polling, calling, Loop, Call, queue, Turn, run_func, make_loop, perform, step, same_place,
}

-- A function that `TimerQueue` gives to `runInLoop`: that of `addTimer` or `invalidateTimer`, or that
-- of `reset`, which makes a new timerfd.
pub data Job (F : Type 0) : Type 0 where
  ask : Command F → Job F
  reset_fd : Job F

pub record Timed (F : Type 0) : Type 0 where
  pub loop : Loop (Job F)
  pub timer_queue : TimerQueue F

-- A job asked in a thread, which is the loop's or not; the firing of the timerfd, with two readings
-- of the clock; any other turn of the loop.
pub data Tick (F : Type 0) : Type 0 where
  asked : (in_thread : Bool) → Job F → Tick F
  fires : ℕ → ℕ → Tick F
  loop_turn : Turn (Job F) → Tick F

-- What comes of it: an exception of a callback, or of a timer without one, leaves `handleRead`, and `failed_at` is
-- a failed assertion of the loop.
pub data Ticked (F : Type 0) : Type 0 where
  going threw_at : Timed F → Ticked F
  failed_at : Ticked F

module _ {F : Type 0} where
  -- The constructor of `TimerQueue`.
  unfoldable pub make_timer_queue : TimerQueue F
  make_timer_queue = record {
    timers = [];
    timer_id_set = [];
    armed = none;
    calling_expired_timers = false;
  }

  unfoldable pub make_timed : Timed F
  unfolding make_timer_queue make_loop
  make_timed = record { loop = make_loop; timer_queue = make_timer_queue }

  unfoldable pub do_job : Job F → TimerQueue F → TimerQueue F
  unfolding execute arm_first
  do_job (ask c) q = execute c q
  do_job reset_fd q = arm_first q.timers (record q { armed = none })

  unfoldable pub run_in_loop : Bool → Job F → Timed F → Timed F
  unfolding do_job perform
  run_in_loop true j s = record s { timer_queue = do_job j s.timer_queue }
  run_in_loop false j s = record s { loop = perform false (queue (some j)) s.loop }

  -- The next function of the loop's queue, if there is one.
  unfoldable pub do_first : List (Job F) → TimerQueue F → TimerQueue F
  unfolding do_job
  do_first [] q = q
  do_first (j ∷ js) q = do_job j q

  -- A turn of the loop; its functions call nothing on the loop.
  abbrev pub no_calls : Job F → List (Call (Job F))
  no_calls j = []

  unfoldable pub with_loop : Option (Loop (Job F)) → TimerQueue F → Ticked F
  with_loop none q = failed_at
  with_loop (some l) q = going (record { loop = l; timer_queue = q })

  unfoldable pub take_turn : Turn (Job F) → Timed F → Ticked F
  unfolding do_first with_loop step same_place
  take_turn run_func s = with_loop (step no_calls run_func s.loop) (
      if same_place calling s.loop.place
      then do_first s.loop.funcs s.timer_queue
      else s.timer_queue)
  take_turn t s = with_loop (step no_calls t s.loop) s.timer_queue

  unfoldable pub after_read : Calls F → Timed F → Ticked F
  after_read (finished ran q) s = going (record s { timer_queue = q })
  after_read (threw ran q) s = threw_at (record s { timer_queue = q })

  -- What a timer's callback asks of the queue is an argument.
  module _ (effects : ℕ → F → Effect F) where
    unfoldable pub tick : Tick F → Timed F → Ticked F
    unfolding run_in_loop take_turn after_read handle_read same_place
    tick (asked in_thread j) s = going (run_in_loop in_thread j s)
    tick (loop_turn t) s = take_turn t s
    tick (fires now clock) s =
        if same_place polling s.loop.place
        then after_read (handle_read effects now clock s.timer_queue) s
        else going s

    unfoldable pub tick_all : List (Tick F) → Timed F → Ticked F
    unfolding tick
    tick_all [] s = going s
    tick_all (t ∷ ts) s = elim (tick t s) [
      | going u ↦ tick_all ts u
      | threw_at u ↦ threw_at u
      | failed_at ↦ failed_at
    ]
