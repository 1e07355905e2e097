-- ===== src/Event/Loop/Throws.antt =====
-- event/EventLoop.cpp: exceptions that leave `EventLoop::loop`. A callback in `poll`, a function of
-- the queue or a function on quit may end with an exception of any type `E`; the ends of the scopes
-- that it leaves, the `catch` and the rethrow at the end of `loop` are those of the source.
pub mod Runs
pub mod Steady
pub mod Unwind
use mysql_connect_pool.Prelude.{Bool, true, false, Option, none, some, List, [], ◌∷◌, if◌then◌else◌}
use mysql_connect_pool.Event.Loop.{
  outside, polling, calling, leaving, Loop, Call, Turn, call_elsewhere, call_outside, wake, start,
  check, run_func, leave, poll_returns, make_loop, perform_all, start_loop, run_next,
  run_on_quit_next, step, wakeup_read, same_place,
}

-- How the last call of `loop` ended.
pub data Ending (E : Type 0) : Type 0 where
  not_ended returned : Ending E
  threw : E → Ending E

-- The loop, `eventHandling_`, the variable `loopException` of `loop`, and the end of its last call.
pub record Frame (F E : Type 0) : Type 0 where
  pub loop : Loop F
  pub event_handling : Bool
  pub loop_exception : Option E
  pub ending : Ending E

-- A turn, or the end of `poll` where a dispatcher's callback throws, with whether `wakeupRead` ran
-- and the calls that were made before.
pub data Happening (F E : Type 0) : Type 0 where
  turn : Turn F → Happening F E
  poll_throws : Bool → List (Call F) → E → Happening F E

-- The end of `loop`: it throws what it caught.
abbrev pub ending_of : {E : Type 0} → Option E → Ending E
ending_of none = returned
ending_of (some e) = threw e

module _ {F E : Type 0} where
  unfoldable pub make_frame : Frame F E
  make_frame = record {
    loop = make_loop;
    event_handling = false;
    loop_exception = none;
    ending = not_ended;
  }

  -- An exception leaves `loop` itself.
  abbrev pub throw_out : E → Frame F E → Frame F E
  throw_out e s = record s {
    loop = record s.loop { place = outside };
    loop_exception = none;
    ending = threw e;
  }

  -- The exception of a function on quit, if it has one.
  unfoldable pub after_quit_func : Option E → Frame F E → Frame F E
  after_quit_func none s = s
  after_quit_func (some e) s = throw_out e s

  unfoldable pub enter : Option (Loop F) → Frame F E → Option (Frame F E)
  enter none s = none
  enter (some l) s = some (record s { loop = l; loop_exception = none; ending = not_ended })

  -- A turn that cannot throw.
  unfoldable pub advance_loop : Option (Loop F) → Frame F E → Option (Frame F E)
  advance_loop none s = none
  advance_loop (some l) s = some (record s { loop = l })

  -- Whether an exception is a `std::exception` is an argument.
  module _ (is_std : E → Bool) where
    -- Out of the `while`: both scopes end, and `catch` takes a `std::exception`.
    unfoldable pub unwind : E → Frame F E → Frame F E
    unwind e s =
        let l = record s.loop { looping = false; calling_funcs = false } in
        if is_std e
        then record s { loop = record l { place = leaving }; loop_exception = some e }
        else throw_out e (record s { loop = l })

    unfoldable pub after_func : Option E → Frame F E → Frame F E
    unfolding unwind
    after_func none s = s
    after_func (some e) s = unwind e s

    -- The end of `poll` with an exception, which leaves `eventHandling_` set.
    unfoldable pub poll_fails : Bool → List (Call F) → E → Frame F E → Frame F E
    unfolding unwind perform_all
    poll_fails read cs e s =
        unwind e
          (record s { loop = perform_all cs (wakeup_read read s.loop); event_handling = true })

  -- What a function calls before it ends, and what it throws then.
  module _ (effects : F → List (Call F)) (raises : F → Option E) where
    -- A function on quit, or the end of `loop`.
    unfoldable pub call_quit_func : List F → Frame F E → Frame F E
    unfolding after_quit_func
    call_quit_func [] s = record s {
      loop = run_on_quit_next effects [] s.loop;
      loop_exception = none;
      ending = ending_of s.loop_exception;
    }
    call_quit_func (f ∷ fs) s =
        after_quit_func (raises f) (record s { loop = run_on_quit_next effects (f ∷ fs) s.loop })

    module _ (is_std : E → Bool) where
      -- A function of the queue, or the end of `doRunInLoopFuncs`.
      unfoldable pub call_func : List F → Frame F E → Frame F E
      unfolding after_func
      call_func [] s = record s { loop = run_next effects [] s.loop }
      call_func (f ∷ fs) s =
          after_func is_std (raises f) (record s { loop = run_next effects (f ∷ fs) s.loop })

      -- What happens; where it cannot come at this place, it changes nothing.
      unfoldable pub advance : Happening F E → Frame F E → Option (Frame F E)
      unfolding call_func call_quit_func enter advance_loop poll_fails step same_place start_loop
      advance (turn run_func) s =
          some (if same_place calling s.loop.place then call_func s.loop.funcs s else s)
      advance (turn leave) s =
          some
            (if same_place leaving s.loop.place then call_quit_func s.loop.funcs_on_quit s else s)
      advance (turn start) s =
          if same_place outside s.loop.place then enter (start_loop s.loop) s else some s
      advance (turn (poll_returns read cs)) s =
          if same_place polling s.loop.place
          then advance_loop (step effects (poll_returns read cs) s.loop)
              (record s { event_handling = false })
          else some s
      advance (turn (call_elsewhere c)) s = advance_loop (step effects (call_elsewhere c) s.loop) s
      advance (turn (call_outside c)) s = advance_loop (step effects (call_outside c) s.loop) s
      advance (turn wake) s = advance_loop (step effects wake s.loop) s
      advance (turn check) s = advance_loop (step effects check s.loop) s
      advance (poll_throws read cs e) s =
          some (if same_place polling s.loop.place then poll_fails is_std read cs e s else s)

      unfoldable pub advance_all : List (Happening F E) → Frame F E → Option (Frame F E)
      unfolding advance
      advance_all [] s = some s
      advance_all (h ∷ hs) s = elim (advance h s) [ none ↦ none | some t ↦ advance_all hs t ]
