-- ===== src/Event/Examples/Loops.antt =====
-- Runs of event loops whose functions throw, and of loops that threads make and move.
use mysql_connect_pool.Prelude.{
  ℕ, ◌+◌, ◌==◌, ◌≡◌, ◌≢◌, refl, Bool, true, false, Option, none, some, List, [], ◌∷◌, ◌++◌, arith,
  if◌then◌else◌, length, replicate,
}
use mysql_connect_pool.Event.Loop.{
  outside, polling, calling, Call, queue, call_elsewhere, wake, start, check, run_func, leave,
  poll_returns, make_loop, same_place,
}
use mysql_connect_pool.Event.Loop.Throws.{
  returned, threw, Frame, Happening, turn, make_frame, advance_all,
}
use mysql_connect_pool.Event.Loop.Throws.Steady.{in_while}
use mysql_connect_pool.Event.Loop.Throws.Runs.{advance_all-queued}
use mysql_connect_pool.Event.Loop.Throws.Unwind.{registers, quit_ending, not_run, throw-Ends}
use mysql_connect_pool.Event.Loop.Threads.{
  Threads, done, Act, construct, move, loop, quit, stop, finish, no_threads, is_in_loop_thread,
  move_to_current_thread, act_all,
}
use mysql_connect_pool.Event.Loop.Threads.Held.{IsMoved, act_all-IsHeld, move-IsMoved}

-- Function 9 throws the exception 1, function 4 the exception 2; the others do nothing.
abbrev throwing : ℕ → Option ℕ
throwing f = if f == 9 then some 1 else if f == 4 then some 2 else none

abbrev no_effects : ℕ → List (Call ℕ)
no_effects f = []

abbrev any_std : ℕ → Bool
any_std e = true

-- Two functions are queued, of which the first throws, and `loop` is called again after it.
abbrev restarted : List (Happening ℕ ℕ)
restarted =
    turn (call_elsewhere (queue (some 9)))
    ∷ turn (call_elsewhere (queue (some 7)))
    ∷ turn wake
    ∷ turn wake
    ∷ turn start
    ∷ turn check
    ∷ turn (poll_returns true [])
    ∷ turn run_func
    ∷ turn leave
    ∷ turn start
    ∷ turn check
    ∷ []

advance_all-queued_example :
    (s : Frame ℕ ℕ) × (advance_all no_effects throwing any_std restarted make_frame ≡ some s)
    × (s.loop.looping ≡ in_while s.loop.place)
    × (s.loop.calling_funcs ≡ same_place calling s.loop.place)
    × (s.loop.ran ++ s.loop.funcs ≡ s.loop.queued)
advance_all-queued_example = advance_all-queued no_effects throwing any_std restarted

-- The loop polls, a function waits, and no wake-up is on its way.
abbrev is_asleep : Option (Frame ℕ ℕ) → Bool
is_asleep none = false
is_asleep (some s) =
    if same_place polling s.loop.place
    then if length s.loop.funcs == 1 then s.loop.wakeups + s.loop.waking == 0 else false
    else false

asleep_with_work : is_asleep (advance_all no_effects throwing any_std restarted make_frame) ≡ true
unfolding advance_all make_frame make_loop
asleep_with_work = refl

abbrev about_to_throw : Frame ℕ ℕ
about_to_throw = record {
  loop = record {
    looping = true;
    quitting = false;
    calling_funcs = true;
    funcs = 9 ∷ 7 ∷ [];
    funcs_on_quit = 3 ∷ 4 ∷ 5 ∷ [];
    wakeups = 0;
    waking = 0;
    place = calling;
    ran = 6 ∷ [];
    queued = 6 ∷ 9 ∷ 7 ∷ [];
  };
  event_handling = false;
  loop_exception = none;
  ending = returned;
}

throw-Ends_example :
    (t : Frame ℕ ℕ) × (advance_all no_effects throwing any_std
        (turn run_func ∷ replicate 4 (turn leave))
        about_to_throw
      ≡ some t)
    × (t.loop.place ≡ outside)
    × (t.ending ≡ quit_ending throwing (3 ∷ 4 ∷ 5 ∷ []) (some 1))
    × (t.ending ≢ returned)
    × (t.loop.funcs_on_quit ≡ not_run throwing (3 ∷ 4 ∷ 5 ∷ []))
    × (t.loop.looping ≡ false)
    × (t.loop.ran ≡ 6 ∷ 9 ∷ [])
unfolding registers
throw-Ends_example =
    throw-Ends no_effects throwing any_std (λ f. refl) 9 (7 ∷ []) 1 about_to_throw refl refl refl
      refl

-- A second function that throws, one on quit, takes the place of the first exception.
second_exception :
    (quit_ending throwing (3 ∷ 4 ∷ 5 ∷ []) (some 1) ≡ threw 2)
    × (not_run throwing (3 ∷ 4 ∷ 5 ∷ []) ≡ 5 ∷ [])
unfolding quit_ending not_run
second_exception = (refl, refl)

after : List Act → Threads
after acts = elim (act_all acts no_threads) [ done s ↦ s | _ ↦ no_threads ]

-- Thread 0 makes a loop, which thread 1 moves to itself.
abbrev moved : List Act
moved = construct 0 ∷ move 1 0 ∷ []

act_all-IsHeld_example :
    (is_in_loop_thread 1 0 (after moved) ≡ true)
    × ((u : ℕ) → (after moved).loop_in_this_thread u ≡ some 0 → u ≡ 1)
unfolding after act_all
act_all-IsHeld_example = act_all-IsHeld moved (after moved) 1 0 refl refl

abbrev made_once : List Act
made_once = construct 0 ∷ []

move-IsMoved_example : IsMoved 1 0 (after made_once) (move_to_current_thread 1 0 (after made_once))
unfolding after act_all
move-IsMoved_example = move-IsMoved made_once (after made_once) 1 0 refl (omega arith)

-- The loop 0 of thread 0 has ended and thread 0 has made the loop 1; when thread 1 takes the loop 0,
-- the variable of thread 0 no longer names the loop 1.
abbrev forgotten : List Act
forgotten = construct 0 ∷ loop 0 0 ∷ quit 0 ∷ stop 0 ∷ finish 0 ∷ construct 0 ∷ move 1 0 ∷ []

loop_is_forgotten :
    ((after forgotten).loop_in_this_thread 0 ≡ none)
    × (is_in_loop_thread 0 1 (after forgotten) ≡ true)
    × ((after forgotten).made ≡ 2)
unfolding after act_all is_in_loop_thread
loop_is_forgotten = (refl, refl, refl)

-- After a request to quit a loop can be moved while a thread is still in its `while`.
abbrev taken_away : List Act
taken_away = construct 0 ∷ loop 0 0 ∷ quit 0 ∷ move 1 0 ∷ []

moved_in_while :
    (((after taken_away).home 0).looping ≡ true)
    × (((after taken_away).home 0).runner ≡ some 0)
    × (is_in_loop_thread 0 0 (after taken_away) ≡ false)
unfolding after act_all is_in_loop_thread
moved_in_while = (refl, refl, refl)
