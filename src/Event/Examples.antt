-- ===== src/Event/Examples.antt =====
-- The theorems on the event loop's parts, at one dispatcher and at an epoll set that is a function
-- from descriptors to events.
mod Loops
mod Timed
mod Threads
use mysql_connect_pool.Prelude.{
  ◌*◌, map, length, List, [], ◌∷◌, ◌+◌, ◌<◌, ◌++◌, ℕ, ◌≡◌, ◌≢◌, refl, Bool, true, false, Option,
  none, some, arith, ◌==◌, Bool-cases, inl, inr, if◌then◌else◌,
}
use mysql_connect_pool.Event.Mask.{Mask, none_event}
use mysql_connect_pool.Event.Dispatcher.{
  Dispatcher, make_dispatcher, added, handle_event, disable_all,
}
use mysql_connect_pool.Event.Dispatcher.Calls.{Dispatches, handle_event-Dispatches}
use mysql_connect_pool.Event.Poller.{Kernel, Operation, ctl_add, ctl_mod, ctl_del, Registered, act}
use mysql_connect_pool.Event.Poller.Sync.{Documented, Succeeds, act-Succeeds}
use mysql_connect_pool.Event.Loop.{
  polling, Loop, Call, queue, Turn, call_elsewhere, start, check, make_loop, queue_in_loop, perform,
  start_loop, check_quit, step, run, same_place,
}
use mysql_connect_pool.Event.Pool.{Pool, next_loops}
use mysql_connect_pool.Event.Pool.Rounds.{next_loops-map}
use mysql_connect_pool.Event.Loop.Wakeup.{run-IsAwake}

abbrev is_there : Option Mask → Bool
is_there none = false
is_there (some m) = true

abbrev write : ℕ → Option Mask → (ℕ → Option Mask) → ℕ → Option Mask
write fd o s other = if fd == other then o else s other

write-other :
    (fd other : ℕ) (o : Option Mask) (s : ℕ → Option Mask)
    → fd ≢ other
    → write fd o s other ≡ s other
write-other fd other o s ne = ground arith

-- EEXIST for a descriptor that is there, ENOENT for one that is not.
abbrev control : Operation → ℕ → Mask → (ℕ → Option Mask) → Bool × (ℕ → Option Mask)
control ctl_add fd m s = if is_there (s fd) then (false, s) else (true, write fd (some m) s)
control ctl_mod fd m s = if is_there (s fd) then (true, write fd (some m) s) else (false, s)
control ctl_del fd m s = if is_there (s fd) then (true, write fd none s) else (false, s)

abbrev epoll : Kernel
epoll = record { Set = ℕ → Option Mask; epoll_ctl = control; interest = λ s fd. s fd }

epoll-Documented : Documented epoll
epoll-Documented = record {
  add_succeeds = λ fd m s h. rw h (refl, ground arith);
  mod_succeeds = λ fd m old s h. rw h (refl, ground arith);
  del_succeeds = λ fd m old s h. rw h (refl, ground arith);
  others_stay = others;
}
  where
    others :
        (op : Operation) (fd other : ℕ) (m : Mask) (s : ℕ → Option Mask)
        → fd ≢ other
        → (control op fd m s).1 other ≡ s other
    others ctl_add fd other m s ne = elim (Bool-cases (is_there (s fd))) [
      | inl t ↦ rw t refl
      | inr t ↦ rw t (write-other fd other (some m) s ne)
    ]
    others ctl_mod fd other m s ne = elim (Bool-cases (is_there (s fd))) [
      | inl t ↦ rw t (write-other fd other (some m) s ne)
      | inr t ↦ rw t refl
    ]
    others ctl_del fd other m s ne = elim (Bool-cases (is_there (s fd))) [
      | inl t ↦ rw t (write-other fd other none s ne)
      | inr t ↦ rw t refl
    ]

-- A dispatcher on descriptor 5 that waits for input, which epoll knows.
abbrev reader : Dispatcher ℕ
reader = record (make_dispatcher 5) {
  events = record none_event { pollin = true; pollpri = true };
  real_events = record none_event { pollin = true };
  state = added;
  read_callback = some 1;
}

abbrev registered_reader : Registered epoll ℕ
registered_reader = record {
  dispatcher = reader;
  set = write 5 (some reader.events) (λ fd. none);
  failures = 0;
}

handle_event-Dispatches_example : Dispatches reader (handle_event reader)
handle_event-Dispatches_example = handle_event-Dispatches reader

act-Succeeds_example : Succeeds registered_reader (act disable_all registered_reader)
unfolding make_dispatcher
act-Succeeds_example = act-Succeeds epoll-Documented disable_all registered_reader tt refl

-- Another thread queues a function while the loop polls, and has not written to the eventfd yet.
abbrev queued_late : List (Turn ℕ)
queued_late = start ∷ check ∷ call_elsewhere (queue (some 7)) ∷ []

abbrev no_effects : ℕ → List (Call ℕ)
no_effects f = []

abbrev waiting_loop : Loop ℕ
waiting_loop = record {
  looping = true;
  quitting = false;
  calling_funcs = false;
  funcs = 7 ∷ [];
  funcs_on_quit = [];
  wakeups = 0;
  waking = 1;
  place = polling;
  ran = [];
  queued = 7 ∷ [];
}

run-IsAwake_example : 0 < waiting_loop.wakeups + waiting_loop.waking
unfolding run step same_place start_loop check_quit perform queue_in_loop make_loop
run-IsAwake_example = run-IsAwake no_effects queued_late waiting_loop refl refl (inl (omega arith))

abbrev three_loops : Pool ℕ
three_loops = record { loops = 10 ∷ 11 ∷ 12 ∷ []; loop_index = 6 }

next_loops-map_example : next_loops 3 three_loops ≡ (
  map some three_loops.loops,
  record three_loops { loop_index = 2 * length three_loops.loops + length three_loops.loops },
)
next_loops-map_example = next_loops-map 2 three_loops refl (omega arith)
