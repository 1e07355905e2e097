-- ===== src/Event/Timers/Ready.antt =====
-- The timerfd is set to the first timer, whatever the threads do (time/TimerQueue.cpp).
use mysql_connect_pool.Prelude.{
  ℕ, ◌≡◌, refl, Bool, true, false, Option, none, some, List, [], ◌∷◌, ◌++◌, if◌then◌else◌, inl, inr,
  Bool-cases,
}
use mysql_connect_pool.Time.TimerQueue.{Effect, TimerQueue, Calls, finished, threw, handle_read}
use mysql_connect_pool.Time.TimerQueue.Order.{
  IsReady, Finishes, execute-IsReady, arm_first-IsReady, handle_read-IsReady,
}
use mysql_connect_pool.Event.Loop.{
  polling, calling, Loop, queue, Turn, call_elsewhere, call_outside, wake, start, check, run_func,
  leave, poll_returns, step, same_place,
}
use mysql_connect_pool.Event.Loop.Throws.Steady.{
  IsSteady, StaysSteady, make_loop-IsSteady, perform-IsSteady, step-StaysSteady,
}
use mysql_connect_pool.Event.Timers.{
  Job, ask, reset_fd, Timed, Tick, asked, fires, loop_turn, Ticked, going, threw_at, failed_at,
  make_timer_queue, make_timed, do_job, run_in_loop, do_first, no_calls, with_loop, take_turn,
  after_read, tick, tick_all,
}

module _ {F : Type 0} where
  pub record IsTimed (s : Timed F) : Type 0 where
    pub ready : IsReady s.timer_queue
    pub steady : IsSteady s.loop

  abbrev pub Stays : Ticked F → Type 0
  Stays (going s) = IsTimed s
  Stays (threw_at s) = Unit
  Stays failed_at = ⊥

  do_job-IsReady : (j : Job F) (q : TimerQueue F) → IsReady q → IsReady (do_job j q)
  unfolding do_job
  do_job-IsReady (ask c) q v = execute-IsReady c q v
  do_job-IsReady reset_fd q v = arm_first-IsReady (record q { armed = none }) q.timers refl v.sorted

  do_first-IsReady : (js : List (Job F)) (q : TimerQueue F) → IsReady q → IsReady (do_first js q)
  unfolding do_first
  do_first-IsReady [] q v = v
  do_first-IsReady (j ∷ js) q v = do_job-IsReady j q v

  either-IsReady :
      (b : Bool) (q r : TimerQueue F) → IsReady q → IsReady r → IsReady (if b then q else r)
  either-IsReady true q r v w = v
  either-IsReady false q r v w = w

  with_loop-Stays :
      (o : Option (Loop (Job F))) (q : TimerQueue F)
      → StaysSteady o
      → IsReady q
      → Stays (with_loop o q)
  unfolding with_loop
  with_loop-Stays none q k v = k
  with_loop-Stays (some l) q k v = record { ready = v; steady = k }

  run_in_loop-IsTimed :
      (b : Bool) (j : Job F) (s : Timed F) → IsTimed s → IsTimed (run_in_loop b j s)
  unfolding run_in_loop
  run_in_loop-IsTimed true j s v = record {
    ready = do_job-IsReady j s.timer_queue v.ready;
    steady = v.steady;
  }
  run_in_loop-IsTimed false j s v = record {
    ready = v.ready;
    steady = perform-IsSteady false (queue (some j)) s.loop v.steady;
  }

  turn-Stays :
      (t : Turn (Job F)) (s : Timed F) (q : TimerQueue F)
      → IsTimed s
      → IsReady q
      → Stays (with_loop (step no_calls t s.loop) q)
  turn-Stays t s q v r = with_loop-Stays _ q (step-StaysSteady no_calls t s.loop v.steady) r

  take_turn-Stays : (t : Turn (Job F)) (s : Timed F) → IsTimed s → Stays (take_turn t s)
  unfolding take_turn
  take_turn-Stays run_func s v = turn-Stays run_func s _ v (
      either-IsReady (same_place calling s.loop.place) _ s.timer_queue
        (do_first-IsReady s.loop.funcs s.timer_queue v.ready) v.ready)
  take_turn-Stays (call_elsewhere c) s v = turn-Stays (call_elsewhere c) s _ v v.ready
  take_turn-Stays (call_outside c) s v = turn-Stays (call_outside c) s _ v v.ready
  take_turn-Stays wake s v = turn-Stays wake s _ v v.ready
  take_turn-Stays start s v = turn-Stays start s _ v v.ready
  take_turn-Stays check s v = turn-Stays check s _ v v.ready
  take_turn-Stays leave s v = turn-Stays leave s _ v v.ready
  take_turn-Stays (poll_returns b cs) s v = turn-Stays (poll_returns b cs) s _ v v.ready

  module _ (effects : ℕ → F → Effect F) where
    after_read-Stays :
        (o : Calls F) (s : Timed F)
        → IsTimed s
        → Finishes effects IsReady o
        → Stays (after_read o s)
    unfolding after_read
    after_read-Stays (finished ran q) s v f = record { ready = f; steady = v.steady }
    after_read-Stays (threw ran q) s v f = tt

    tick-Stays : (t : Tick F) (s : Timed F) → IsTimed s → Stays (tick effects t s)
    unfolding tick
    tick-Stays (asked b j) s v = run_in_loop-IsTimed b j s v
    tick-Stays (loop_turn t) s v = take_turn-Stays t s v
    tick-Stays (fires now clock) s v = elim (Bool-cases (same_place polling s.loop.place)) [
      | inl e ↦ rw e (
          after_read-Stays (handle_read effects now clock s.timer_queue) s v
            (handle_read-IsReady effects now clock s.timer_queue v.ready.sorted))
      | inr e ↦ rw e v
    ]

    rest-Stays :
        (o : Ticked F) (f : Timed F → Ticked F)
        → Stays o
        → ((s : Timed F) → IsTimed s → Stays (f s))
        → Stays (elim o [ going s ↦ f s | threw_at s ↦ threw_at s | failed_at ↦ failed_at ])
    rest-Stays (going s) f k g = g s k
    rest-Stays (threw_at s) f k g = tt
    rest-Stays failed_at f k g = k

    tick_all-Stays : (ts : List (Tick F)) (s : Timed F) → IsTimed s → Stays (tick_all effects ts s)
    unfolding tick_all
    tick_all-Stays [] s v = v
    tick_all-Stays (t ∷ ts) s v =
        rest-Stays (tick effects t s) (tick_all effects ts) (tick-Stays t s v) (tick_all-Stays ts)

    make_timed-IsTimed : IsTimed (make_timed {F = F})
    unfolding make_timed make_timer_queue
    make_timed-IsTimed = record {
      ready = record { sorted = tt; armed_first = tt };
      steady = make_loop-IsSteady;
    }

    -- The timers are in order, the timerfd is set to the first, and the jobs that the loop has done,
    -- and behind them those that wait, are those that other threads asked for; or a callback threw, or
    -- a timer without one.
    abbrev pub AllReady : Ticked F → Type 0
    AllReady (going s) = IsReady s.timer_queue × (s.loop.ran ++ s.loop.funcs ≡ s.loop.queued)
    AllReady (threw_at s) = Unit
    AllReady failed_at = ⊥

    all_ready : (o : Ticked F) → Stays o → AllReady o
    all_ready (going s) v = (v.ready, v.steady.in_order)
    all_ready (threw_at s) v = tt
    all_ready failed_at v = v

    -- Whatever any threads ask of the queue of timers, whatever the callbacks add or cancel, and
    -- however often the timerfd fires: unless a callback throws, or a timer without one, the timers
    -- are in order, the timerfd is set to the first of them, no assertion of the loop fails, and the
    -- jobs that the loop has taken off its queue, and behind them those that wait, are those that
    -- were put in, in their order.
    pub tick_all-AllReady : (ts : List (Tick F)) → AllReady (tick_all effects ts make_timed)
    tick_all-AllReady ts =
        all_ready (tick_all effects ts make_timed) (tick_all-Stays ts make_timed make_timed-IsTimed)
