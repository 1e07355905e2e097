-- ===== src/Event/LoopThread/Ends.antt =====
-- The hand-shake of the owner and the thread (event/EventLoopThread.cpp), under every schedule.
use mysql_connect_pool.Prelude.{
  not, ◌||◌, ℕ, zero, suc, ◌&&◌, ◌≡◌, refl, Bool, true, false, List, [], ◌∷◌,
}
use mysql_connect_pool.Event.LoopThread.{
  Owner, idle, joining, gone, ThreadPlace, looping, left, ended, EventLoopThread, Turn, owner_turn,
  thread_turn, make_event_loop_thread, is_ended, step,
}
use mysql_connect_pool.Event.LoopThread.Phases.{
  run_turns, calls, ends, IsFree, rests, chooses, stops, after_run, Phase, begun, queued, offered,
  constructed, waits, enters, loops_first, loops, leaves, is_over, loops_quit, leaves_quit,
  is_over_quit, is_gone, run_turns-Phase, make-Phase,
}

-- Turn about, the owner wanting to destroy the object.
pub rounds : ℕ → List Turn
rounds zero = []
rounds (suc n) = owner_turn true ∷ thread_turn false ∷ rounds n

abbrev is_gone_owner : Owner → Bool
is_gone_owner gone = true
is_gone_owner _ = false

pub has_ended : EventLoopThread → Bool
unfolding is_ended
has_ended s = is_gone_owner s.owner && is_ended s.place

Phase-ends : (s : EventLoopThread) → Phase s → has_ended (run_turns (rounds 12) s) ≡ true
unfolding run_turns rounds step has_ended
Phase-ends s begun = refl
Phase-ends s queued = refl
Phase-ends s offered = refl
Phase-ends s constructed = refl
Phase-ends s (waits calls) = refl
Phase-ends s (waits ends) = refl
Phase-ends s (enters calls) = refl
Phase-ends s (enters ends) = refl
Phase-ends s (loops_first calls) = refl
Phase-ends s (loops_first ends) = refl
Phase-ends s (loops {q = true} rests) = refl
Phase-ends s (loops {q = true} calls) = refl
Phase-ends s (loops {q = true} ends) = refl
Phase-ends s (loops {q = true} chooses) = refl
Phase-ends s (loops {q = true} stops) = refl
Phase-ends s (loops {q = false} rests) = refl
Phase-ends s (loops {q = false} calls) = refl
Phase-ends s (loops {q = false} ends) = refl
Phase-ends s (loops {q = false} chooses) = refl
Phase-ends s (loops {q = false} stops) = refl
Phase-ends s (leaves rests) = refl
Phase-ends s (leaves calls) = refl
Phase-ends s (leaves ends) = refl
Phase-ends s (leaves chooses) = refl
Phase-ends s (leaves stops) = refl
Phase-ends s (is_over rests) = refl
Phase-ends s (is_over calls) = refl
Phase-ends s (is_over ends) = refl
Phase-ends s (is_over chooses) = refl
Phase-ends s (is_over stops) = refl
Phase-ends s loops_quit = refl
Phase-ends s leaves_quit = refl
Phase-ends s is_over_quit = refl
Phase-ends s is_gone = refl

-- Whatever turns the owner and the thread took from the constructor on, if from then they take
-- turn about and the owner destroys the object, twelve rounds later the destructor has returned and
-- the thread has ended: neither waits for the other for ever, and the `quit` is not lost.
pub rounds-has_ended :
    (ts : List Turn)
    → has_ended (run_turns (rounds 12) (run_turns ts make_event_loop_thread)) ≡ true
rounds-has_ended ts =
    Phase-ends (run_turns ts make_event_loop_thread)
      (run_turns-Phase ts make_event_loop_thread make-Phase)

-- Between calls the thread has run the function of the queue, once `run` was called; at `join` the
-- loop was told to quit; the object is gone only when the thread has ended.
unfoldable pub in_order : Owner → EventLoopThread → Bool
unfolding is_ended
in_order idle s = not s.once || s.loop_set
in_order joining s = s.quit
in_order gone s = is_ended s.place
in_order _ s = true

IsFree-in_order :
    (p : ThreadPlace) (h q : Bool) {o : Owner} → IsFree o → in_order o (after_run o p h q) ≡ true
unfolding in_order
IsFree-in_order p h q rests = refl
IsFree-in_order p h q calls = refl
IsFree-in_order p h q ends = refl
IsFree-in_order p h q chooses = refl
IsFree-in_order p h q stops = refl

Phase-in_order : (s : EventLoopThread) → Phase s → in_order s.owner s ≡ true
unfolding in_order
Phase-in_order s begun = refl
Phase-in_order s queued = refl
Phase-in_order s offered = refl
Phase-in_order s constructed = refl
Phase-in_order s (waits calls) = refl
Phase-in_order s (waits ends) = refl
Phase-in_order s (enters calls) = refl
Phase-in_order s (enters ends) = refl
Phase-in_order s (loops_first calls) = refl
Phase-in_order s (loops_first ends) = refl
Phase-in_order s (loops f) = IsFree-in_order looping true _ f
Phase-in_order s (leaves f) = IsFree-in_order left true true f
Phase-in_order s (is_over f) = IsFree-in_order ended false true f
Phase-in_order s loops_quit = refl
Phase-in_order s leaves_quit = refl
Phase-in_order s is_over_quit = refl
Phase-in_order s is_gone = refl

-- Whatever turns the owner and the thread take: when `run` has returned, the thread
-- has run in its loop the function that it queued before; whenever the owner is at
-- `join`, `quit_` is set; when the object is gone, the thread has ended.
pub run_turns-in_order :
    (ts : List Turn)
    → in_order (run_turns ts make_event_loop_thread).owner (run_turns ts make_event_loop_thread)
      ≡ true
run_turns-in_order ts =
    Phase-in_order (run_turns ts make_event_loop_thread)
      (run_turns-Phase ts make_event_loop_thread make-Phase)
