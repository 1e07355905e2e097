-- ===== src/Event/LoopThread.antt =====
-- event/EventLoopThread.cpp: a thread that owns a loop, and its owner, which constructs it, calls `run`
-- and destroys it. The two take turns in any order; a turn of a thread that waits changes nothing.
-- How a poll ends and a quit wakes it is in Event/Loop: here an iteration of the loop is one turn.
pub mod Phases
pub mod Ends
use mysql_connect_pool.Prelude.{Bool, true, false, ◌||◌, List, [], ◌∷◌, if◌then◌else◌}

-- Where the owner is: in the constructor; between calls; in `run`, called by it or by the destructor,
-- waiting for `promiseForLoop_`; in the destructor at the read of `loop_`, at `quit`, at `join`; done.
pub data Owner : Type 0 where
  constructing idle calling ending choosing stopping joining gone : Owner

-- Where the thread is: before `queueInLoop`; before `promiseForLoopPointer_` is set; waiting for
-- `promiseForRun_`; before `loop`; at the test of `quit_`; behind `loop`; at its end.
pub data ThreadPlace : Type 0 where
  starting offering awaiting entering looping left ended : ThreadPlace

pub record EventLoopThread : Type 0 where
  pub owner : Owner
  pub place : ThreadPlace
  -- the three promises, and `once_`
  pub pointer_set : Bool
  pub run_set : Bool
  pub loop_set : Bool
  pub once : Bool
  -- whether `loop_` points to a loop
  pub has_loop : Bool
  -- the loop's `quit_`, and whether the function that sets `promiseForLoop_` is in its queue
  pub quit : Bool
  pub pending : Bool

-- A turn of the owner, which destroys the object or else calls `run` when it is between calls; a turn
-- of the thread, with whether a callback of the iteration calls `quit`.
pub data Turn : Type 0 where
  owner_turn thread_turn : Bool → Turn

unfoldable pub make_event_loop_thread : EventLoopThread
make_event_loop_thread = record {
  owner = constructing;
  place = starting;
  pointer_set = false;
  run_set = false;
  loop_set = false;
  once = false;
  has_loop = false;
  quit = false;
  pending = false;
}

-- `call_once` of `run`, and `run` when it was called before.
unfoldable pub run_once : Owner → Owner → EventLoopThread → EventLoopThread
run_once waiting behind s =
    if s.once
    then record s { owner = behind }
    else record s { once = true; run_set = true; owner = waiting }

unfoldable pub is_ended : ThreadPlace → Bool
is_ended ended = true
is_ended _ = false

unfoldable pub owner_step : Bool → Owner → EventLoopThread → EventLoopThread
unfolding run_once is_ended
owner_step destroys constructing s =
    if s.pointer_set then record s { owner = idle; has_loop = true } else s
owner_step destroys idle s =
    if destroys then run_once ending choosing s else run_once calling idle s
owner_step destroys calling s = if s.loop_set then record s { owner = idle } else s
owner_step destroys ending s = if s.loop_set then record s { owner = choosing } else s
owner_step destroys choosing s =
    if s.has_loop then record s { owner = stopping } else record s { owner = joining }
owner_step destroys stopping s = record s { quit = true; owner = joining }
owner_step destroys joining s = if is_ended s.place then record s { owner = gone } else s
owner_step destroys gone s = s

-- `loopFuncs`. `loop` stores false in `quit_`; an iteration runs the callbacks, then the queue.
unfoldable pub thread_step : Bool → ThreadPlace → EventLoopThread → EventLoopThread
thread_step quits starting s = record s { pending = true; place = offering }
thread_step quits offering s = record s { pointer_set = true; place = awaiting }
thread_step quits awaiting s = if s.run_set then record s { place = entering } else s
thread_step quits entering s = record s { quit = false; place = looping }
thread_step quits looping s =
    if s.quit
    then record s { place = left }
    else record s { quit = quits; loop_set = s.loop_set || s.pending; pending = false }
thread_step quits left s = record s { has_loop = false; place = ended }
thread_step quits ended s = s

unfoldable pub step : Turn → EventLoopThread → EventLoopThread
unfolding owner_step thread_step
step (owner_turn destroys) s = owner_step destroys s.owner s
step (thread_turn quits) s = thread_step quits s.place s
