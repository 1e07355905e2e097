-- ===== src/Event/LoopThread/Phases.antt =====
-- The states that the owner and the thread of event/EventLoopThread.cpp can come to.
use mysql_connect_pool.Prelude.{Bool, true, false, List, [], ◌∷◌}
use mysql_connect_pool.Event.LoopThread.{
  Owner, constructing, idle, calling, ending, choosing, stopping, joining, gone, ThreadPlace,
  starting, offering, awaiting, entering, looping, left, ended, EventLoopThread, Turn, owner_turn,
  thread_turn, make_event_loop_thread, step,
}

unfoldable pub run_turns : List Turn → EventLoopThread → EventLoopThread
run_turns [] s = s
run_turns (t ∷ ts) s = run_turns ts (step t s)

-- Before `run` was called.
abbrev pub before_run : Owner → ThreadPlace → Bool → Bool → Bool → EventLoopThread
before_run o p pointer has pending = record {
  owner = o;
  place = p;
  pointer_set = pointer;
  run_set = false;
  loop_set = false;
  once = false;
  has_loop = has;
  quit = false;
  pending = pending;
}

-- In `run`, before the function of the queue ran.
abbrev pub in_run : Owner → ThreadPlace → EventLoopThread
in_run o p = record {
  owner = o;
  place = p;
  pointer_set = true;
  run_set = true;
  loop_set = false;
  once = true;
  has_loop = true;
  quit = false;
  pending = true;
}

-- After that function ran.
abbrev pub after_run : Owner → ThreadPlace → Bool → Bool → EventLoopThread
after_run o p has q = record {
  owner = o;
  place = p;
  pointer_set = true;
  run_set = true;
  loop_set = true;
  once = true;
  has_loop = has;
  quit = q;
  pending = false;
}

pub data IsWaiting : Owner → Type 0 where
  calls : IsWaiting calling
  ends : IsWaiting ending

-- The owner has not called `quit`, or it is called and the thread is past the loop.
pub data IsFree : Owner → Type 0 where
  rests : IsFree idle
  calls : IsFree calling
  ends : IsFree ending
  chooses : IsFree choosing
  stops : IsFree stopping

pub data Phase : EventLoopThread → Type 0 where
  begun : Phase (before_run constructing starting false false false)
  queued : Phase (before_run constructing offering false false true)
  offered : Phase (before_run constructing awaiting true false true)
  constructed : Phase (before_run idle awaiting true true true)
  waits : {o : Owner} → IsWaiting o → Phase (in_run o awaiting)
  enters : {o : Owner} → IsWaiting o → Phase (in_run o entering)
  loops_first : {o : Owner} → IsWaiting o → Phase (in_run o looping)
  loops : {o : Owner} {q : Bool} → IsFree o → Phase (after_run o looping true q)
  leaves : {o : Owner} → IsFree o → Phase (after_run o left true true)
  is_over : {o : Owner} → IsFree o → Phase (after_run o ended false true)
  loops_quit : Phase (after_run joining looping true true)
  leaves_quit : Phase (after_run joining left true true)
  is_over_quit : Phase (after_run joining ended false true)
  is_gone : Phase (after_run gone ended false true)

step-Phase : (t : Turn) (s : EventLoopThread) → Phase s → Phase (step t s)
unfolding step
step-Phase (owner_turn d) s begun = begun
step-Phase (thread_turn q) s begun = queued
step-Phase (owner_turn d) s queued = queued
step-Phase (thread_turn q) s queued = offered
step-Phase (owner_turn d) s offered = constructed
step-Phase (thread_turn q) s offered = offered
step-Phase (owner_turn true) s constructed = waits ends
step-Phase (owner_turn false) s constructed = waits calls
step-Phase (thread_turn q) s constructed = constructed
step-Phase (owner_turn d) s (waits calls) = waits calls
step-Phase (owner_turn d) s (waits ends) = waits ends
step-Phase (thread_turn q) s (waits w) = enters w
step-Phase (owner_turn d) s (enters calls) = enters calls
step-Phase (owner_turn d) s (enters ends) = enters ends
step-Phase (thread_turn q) s (enters w) = loops_first w
step-Phase (owner_turn d) s (loops_first calls) = loops_first calls
step-Phase (owner_turn d) s (loops_first ends) = loops_first ends
step-Phase (thread_turn q) s (loops_first calls) = loops calls
step-Phase (thread_turn q) s (loops_first ends) = loops ends
step-Phase (owner_turn true) s (loops rests) = loops chooses
step-Phase (owner_turn false) s (loops rests) = loops rests
step-Phase (owner_turn d) s (loops calls) = loops rests
step-Phase (owner_turn d) s (loops ends) = loops chooses
step-Phase (owner_turn d) s (loops chooses) = loops stops
step-Phase (owner_turn d) s (loops stops) = loops_quit
step-Phase (thread_turn q) s (loops {q = true} f) = leaves f
step-Phase (thread_turn q) s (loops {q = false} f) = loops f
step-Phase (owner_turn true) s (leaves rests) = leaves chooses
step-Phase (owner_turn false) s (leaves rests) = leaves rests
step-Phase (owner_turn d) s (leaves calls) = leaves rests
step-Phase (owner_turn d) s (leaves ends) = leaves chooses
step-Phase (owner_turn d) s (leaves chooses) = leaves stops
step-Phase (owner_turn d) s (leaves stops) = leaves_quit
step-Phase (thread_turn q) s (leaves f) = is_over f
step-Phase (owner_turn true) s (is_over rests) = is_over chooses
step-Phase (owner_turn false) s (is_over rests) = is_over rests
step-Phase (owner_turn d) s (is_over calls) = is_over rests
step-Phase (owner_turn d) s (is_over ends) = is_over chooses
step-Phase (owner_turn d) s (is_over chooses) = is_over_quit
step-Phase (owner_turn d) s (is_over stops) = is_over_quit
step-Phase (thread_turn q) s (is_over f) = is_over f
step-Phase (owner_turn d) s loops_quit = loops_quit
step-Phase (thread_turn q) s loops_quit = leaves_quit
step-Phase (owner_turn d) s leaves_quit = leaves_quit
step-Phase (thread_turn q) s leaves_quit = is_over_quit
step-Phase (owner_turn d) s is_over_quit = is_gone
step-Phase (thread_turn q) s is_over_quit = is_over_quit
step-Phase (owner_turn d) s is_gone = is_gone
step-Phase (thread_turn q) s is_gone = is_gone

pub run_turns-Phase : (ts : List Turn) (s : EventLoopThread) → Phase s → Phase (run_turns ts s)
unfolding run_turns
run_turns-Phase [] s p = p
run_turns-Phase (t ∷ ts) s p = run_turns-Phase ts (step t s) (step-Phase t s p)

pub make-Phase : Phase make_event_loop_thread
unfolding make_event_loop_thread
make-Phase = begun
