-- ===== src/Event/Examples/Threads.antt =====
-- The theorems on a thread with a loop, after the owner has called `run` and a callback has quit.
use mysql_connect_pool.Prelude.{◌≡◌, true, false, List, [], ◌∷◌}
use mysql_connect_pool.Event.LoopThread.{Turn, owner_turn, thread_turn, make_event_loop_thread}
use mysql_connect_pool.Event.LoopThread.Phases.{run_turns}
use mysql_connect_pool.Event.LoopThread.Ends.{
  rounds, has_ended, rounds-has_ended, in_order, run_turns-in_order,
}

abbrev some_turns : List Turn
some_turns =
    thread_turn false
    ∷ thread_turn false
    ∷ owner_turn false
    ∷ owner_turn false
    ∷ thread_turn false
    ∷ thread_turn false
    ∷ thread_turn true
    ∷ owner_turn false
    ∷ thread_turn false
    ∷ []

rounds-has_ended_example :
    has_ended (run_turns (rounds 12) (run_turns some_turns make_event_loop_thread)) ≡ true
rounds-has_ended_example = rounds-has_ended some_turns

run_turns-in_order_example :
    in_order
      (run_turns some_turns make_event_loop_thread).owner
      (run_turns some_turns make_event_loop_thread)
    ≡ true
run_turns-in_order_example = run_turns-in_order some_turns
