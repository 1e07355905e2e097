-- ===== src/Event/Examples/Timed.antt =====
-- Runs of a loop with its queue of timers.
use mysql_connect_pool.Prelude.{
  arith, ℕ, ◌≡◌, refl, arith, Bool, true, false, some, List, [], ◌∷◌, ◌++◌, replicate,
}
use mysql_connect_pool.Time.Timer.{Timer, next_id}
use mysql_connect_pool.Time.TimerQueue.{Effect, add, cancel, contains}
use mysql_connect_pool.Time.TimerQueue.Order.{IsReady}
use mysql_connect_pool.Time.TimerQueue.Cancel.{Round, asks, fires, run_rounds}
use mysql_connect_pool.Event.Timers.Deadlines.{run_after, run_after-RanIt}
use mysql_connect_pool.Event.Loop.{
  make_loop, checking, calling, wake, start, check, run_func, poll_returns,
}
use mysql_connect_pool.Event.Timers.{
  Job, ask, reset_fd, Timed, Tick, asked, loop_turn, Ticked, going, make_timer_queue, make_timed,
  tick_all,
}
use mysql_connect_pool.Event.Timers.Ready.{AllReady, tick_all-AllReady}
use mysql_connect_pool.Event.Timers.Drain.{do_jobs, run_funcs-do_jobs}

abbrev tea : Timer ℕ
tea = record { callback = some 0; when = 1000; interval = 0; id = 1 }

abbrev no_effects : ℕ → ℕ → Effect ℕ
no_effects now f = record { commands = []; throws = false }

-- Another thread adds a timer, and before its function has run the loop's thread invalidates it.
abbrev overtaken : List (Tick ℕ)
overtaken =
    asked false (ask (add tea))
    ∷ asked true (ask (cancel 1))
    ∷ loop_turn wake
    ∷ loop_turn start
    ∷ loop_turn check
    ∷ loop_turn (poll_returns true [])
    ∷ loop_turn run_func
    ∷ []

tick_all-AllReady_example : AllReady no_effects (tick_all no_effects overtaken make_timed)
tick_all-AllReady_example = tick_all-AllReady no_effects overtaken

abbrev is_valid : Ticked ℕ → Bool
is_valid (going s) = contains 1 s.timer_queue.timer_id_set
is_valid _ = false

-- The timer is valid all the same.
still_valid : is_valid (tick_all no_effects overtaken make_timed) ≡ true
unfolding tick_all make_timed contains
still_valid = refl

abbrev two_jobs : List (Job ℕ)
two_jobs = ask (add tea) ∷ reset_fd ∷ []

abbrev about_to_run : Timed ℕ
about_to_run = record {
  loop = record {
    looping = true;
    quitting = false;
    calling_funcs = true;
    funcs = two_jobs;
    funcs_on_quit = [];
    wakeups = 0;
    waking = 0;
    place = calling;
    ran = [];
    queued = two_jobs;
  };
  timer_queue = make_timer_queue;
}

run_funcs-do_jobs_example :
    (t : Timed ℕ) × (tick_all no_effects (replicate 3 (loop_turn run_func)) about_to_run ≡ going t)
    × (t.timer_queue ≡ do_jobs two_jobs make_timer_queue)
    × (t.loop.ran ≡ two_jobs)
    × (t.loop.funcs ≡ [])
    × (t.loop.place ≡ checking)
run_funcs-do_jobs_example = run_funcs-do_jobs no_effects two_jobs about_to_run refl refl

abbrev idle : Timed ℕ
idle = record { loop = make_loop; timer_queue = make_timer_queue }

-- The timerfd fires early, and another timer is added and cancelled.
abbrev meanwhile : List (Round ℕ)
meanwhile = fires 1200 1201 ∷ asks (add (record tea { id = 5 }) ∷ cancel 5 ∷ []) ∷ []

run_after-RanIt_example :
    let (i, counter, t) = run_after true 500 90000 90003 1000 (some 4) 0 idle in
    IsReady t.timer_queue
    × (contains i (run_rounds no_effects meanwhile t.timer_queue) ≡ false)
    × (contains i (run_rounds no_effects (meanwhile ++ (fires 1500 1501 ∷ [])) t.timer_queue)
        ≡ true)
unfolding make_timer_queue next_id
run_after-RanIt_example =
    run_after-RanIt no_effects 500 90000 90003 1000 0 1500 1501 4 meanwhile idle (omega arith)
      (record { sorted = tt; armed_first = tt }) tt refl (λ now f. (refl, tt))
      (omega arith, ((omega arith, (λ e. cc), (omega arith, tt)), tt)) (omega arith)
