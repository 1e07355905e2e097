-- ===== src/Event/Loop/Threads.antt =====
-- event/EventLoop.cpp: which thread an event loop is in. Threads and loops are numbered; each thread
-- has its `t_loopInThisThread`, and `threadLocalLoopPtr_` names the thread whose variable it points
-- to. Any thread may call at any time.
pub mod Held
use mysql_connect_pool.Prelude.{
  ℕ, suc, ◌==◌, ltb, Bool, true, false, not, ◌&&◌, Option, none, some, List, [], ◌∷◌, if◌then◌else◌,
}

-- What a loop knows of its thread, its flags, and the thread that is in its `loop`.
pub record Home : Type 0 where
  pub thread_id : ℕ
  pub thread_local_loop_ptr : ℕ
  pub looping : Bool
  pub quitting : Bool
  pub runner : Option ℕ

-- The loops made so far, each one's home, and the variable of each thread.
pub record Threads : Type 0 where
  pub made : ℕ
  pub home : ℕ → Home
  pub loop_in_this_thread : ℕ → Option ℕ

-- A call returns, ends the process with a FATAL message, or fails an assertion.
pub data Called : Type 0 where
  done : Threads → Called
  fatal failed : Called

-- A thread makes a loop, moves one to itself or calls `loop`; some thread calls `quit`; the end of
-- the `while` of a loop, and the end of its `loop`, or an exception that leaves `loop` before it.
pub data Act : Type 0 where
  construct : (thread : ℕ) → Act
  move loop : (thread loop : ℕ) → Act
  quit stop finish abandon : (loop : ℕ) → Act

abbrev pub assign_at : {A : Type 0} → (ℕ → A) → ℕ → A → ℕ → A
assign_at f k a i = if i == k then a else f i

abbrev pub set_home : ℕ → Home → Threads → Threads
set_home n h s = record s { home = assign_at s.home n h }

abbrev pub no_threads : Threads
no_threads = record {
  made = 0;
  home = λ n. record {
    thread_id = 0;
    thread_local_loop_ptr = 0;
    looping = false;
    quitting = false;
    runner = none;
  };
  loop_in_this_thread = λ t. none;
}

-- `isInLoopThread`, called in a thread
unfoldable pub is_in_loop_thread : ℕ → ℕ → Threads → Bool
is_in_loop_thread t n s = (s.home n).thread_id == t

unfoldable pub is_running : ℕ → Threads → Bool
is_running n s = (s.home n).looping && not (s.home n).quitting

unfoldable pub make_event_loop : ℕ → Option ℕ → Threads → Called
make_event_loop t (some other) s = fatal
make_event_loop t none s = done (record {
  made = suc s.made;
  home = assign_at s.home s.made (record {
    thread_id = t;
    thread_local_loop_ptr = t;
    looping = false;
    quitting = false;
    runner = none;
  });
  loop_in_this_thread = assign_at s.loop_in_this_thread t (some s.made);
})

-- The end of `moveToCurrentThread`: the pointer's variable is cleared, then that of this thread set.
unfoldable pub take_over : ℕ → ℕ → Threads → Threads
take_over t n s = record {
  made = s.made;
  home = assign_at s.home n (record (s.home n) { thread_id = t; thread_local_loop_ptr = t });
  loop_in_this_thread =
      assign_at (assign_at s.loop_in_this_thread (s.home n).thread_local_loop_ptr none) t (some n);
}

unfoldable pub move_if_free : Option ℕ → ℕ → ℕ → Threads → Called
unfolding take_over
move_if_free (some other) t n s = fatal
move_if_free none t n s = done (take_over t n s)

unfoldable pub move_to_current_thread : ℕ → ℕ → Threads → Called
unfolding move_if_free is_running is_in_loop_thread
move_to_current_thread t n s =
    if is_running n s
    then fatal
    else if is_in_loop_thread t n s
    then done s
    else move_if_free (s.loop_in_this_thread t) t n s

-- `loop`, to its first test of `quit_`
unfoldable pub enter_loop : ℕ → ℕ → Threads → Called
unfolding is_in_loop_thread
enter_loop t n s =
    if (s.home n).looping
    then failed
    else if not (is_in_loop_thread t n s)
    then fatal
    else done
        (set_home n (record (s.home n) { looping = true; quitting = false; runner = some t }) s)

-- The end of `loop` in the thread that is in it.
unfoldable pub finish_loop : Option ℕ → ℕ → Threads → Threads
finish_loop none n s = s
finish_loop (some t) n s =
    let u = set_home n (record (s.home n) { runner = none }) s in
    record u { loop_in_this_thread = assign_at s.loop_in_this_thread t none }

-- An act on a loop that there is; `stop` needs the request to quit, `finish` the end of the `while`.
unfoldable pub act_on : Act → Threads → Called
unfolding make_event_loop move_to_current_thread enter_loop finish_loop
act_on (construct t) s = make_event_loop t (s.loop_in_this_thread t) s
act_on (move t n) s = if ltb n s.made then move_to_current_thread t n s else done s
act_on (loop t n) s = if ltb n s.made then enter_loop t n s else done s
act_on (quit n) s = done (set_home n (record (s.home n) { quitting = true }) s)
act_on (stop n) s =
    done (if (s.home n).quitting then set_home n (record (s.home n) { looping = false }) s else s)
act_on (finish n) s = done (if (s.home n).looping then s else finish_loop (s.home n).runner n s)
act_on (abandon n) s = done (set_home n (record (s.home n) { looping = false; runner = none }) s)

unfoldable pub act_all : List Act → Threads → Called
unfolding act_on
act_all [] s = done s
act_all (a ∷ rest) s = elim (act_on a s) [
  | done t ↦ act_all rest t
  | fatal ↦ fatal
  | failed ↦ failed
]
