-- ===== src/Time/Examples.antt =====
-- The theorems on timers, at a queue of two timers, one of them repeating.
mod Dates
use mysql_connect_pool.Prelude.{
  ◌%◌, ℕ, ◌+◌, ◌-◌, ◌*◌, ◌≤◌, ◌<◌, ◌≡◌, ◌≢◌, refl, false, true, some, List, [], ◌∷◌, ◌++◌, arith,
  ◌⊎◌, inl, inr,
}
use mysql_connect_pool.Time.Timer.{
  Timer, is_repeat, created_after, created_after-ne, how_much_time_from_now,
  how_much_time_from_now_lem,
}
use mysql_connect_pool.Time.TimerQueue.{
  TimerQueue, Command, Effect, finished, cancel, contains, execute, get_expired, reset_each,
  handle_read, invalidate_timer,
}
use mysql_connect_pool.Time.TimerQueue.Order.{
  AtLeast, IsSorted, IsReady, AllExpired, Finishes, handle_read-IsReady,
}
use mysql_connect_pool.Time.TimerQueue.Cancel.{fires, run_rounds, run_rounds-invalidate_timer}
use mysql_connect_pool.Time.TimerQueue.Reset.{AllReset}
use mysql_connect_pool.Time.TimerQueue.Due.{AllAgain, handle_read-AllAgain}

-- A callback is its name, a number.
abbrev once : Timer ℕ
once = record { callback = some 0; when = 1000; interval = 0; id = 1 }

abbrev twice : Timer ℕ
twice = record { callback = some 1; when = 1500; interval = 500; id = 2 }

abbrev two_timers : TimerQueue ℕ
two_timers = record {
  timers = once ∷ twice ∷ [];
  timer_id_set = 1 ∷ 2 ∷ [];
  armed = some 1000;
  calling_expired_timers = false;
}

-- The first callback cancels the second timer.
abbrev effects : ℕ → ℕ → Effect ℕ
effects now f = record { commands = cancel 2 ∷ []; throws = false }

created_after-ne_example : created_after 1 5 ≢ created_after 3 5
created_after-ne_example = created_after-ne 5 1 3 (omega arith) (omega arith) (omega arith)

how_much_time_from_now_example :
    let ts = how_much_time_from_now 2500999 1000000 in
    (ts.tv_nsec < 1000000000)
    × (100000 ≤ ts.tv_sec * 1000000000 + ts.tv_nsec)
    × (2500999 - 1000000 < ts.tv_sec * 1000000000 + ts.tv_nsec + 1000)
    × (ts.tv_nsec % 1000 ≡ 0)
    × (((2500999 - 1000000 < 100000) × (ts.tv_sec * 1000000000 + ts.tv_nsec ≡ 100000))
        ⊎ (ts.tv_sec * 1000000000 + ts.tv_nsec ≤ 2500999 - 1000000))
how_much_time_from_now_example = how_much_time_from_now_lem 2500999 1000000

run_rounds-invalidate_timer_example :
    contains 2
      (run_rounds effects (fires 1200 1200 ∷ fires 2000 2001 ∷ []) (invalidate_timer 2 two_timers))
    ≡ false
run_rounds-invalidate_timer_example =
    run_rounds-invalidate_timer effects 2 (fires 1200 1200 ∷ fires 2000 2001 ∷ []) two_timers
      (λ now f. tt) tt

-- The first callback cancels a third timer.
abbrev cancels_other : ℕ → ℕ → Effect ℕ
cancels_other now f = record { commands = cancel 7 ∷ []; throws = false }

handle_read-AllAgain_example :
    (ran : List ℕ) × (r : TimerQueue ℕ) × (handle_read cancels_other 2000 2001 two_timers
      ≡ finished ran r)
    × (contains 2 ran ≡ true)
    × (contains 2 r.timer_id_set ≡ true)
    × AllAgain 2 2000 2001 r (get_expired 2000 two_timers.timers).0
    × AllReset 2000 2001 r (get_expired 2000 two_timers.timers).0
unfolding contains is_repeat
handle_read-AllAgain_example =
    handle_read-AllAgain cancels_other 2 2000 2001 two_timers ((omega arith, tt), (tt, tt))
      (λ e. cc, (λ e. cc, tt)) (inl (omega arith), (inr refl, tt)) refl refl
      (λ now f. (refl, (omega arith, tt)))
