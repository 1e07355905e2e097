-- ===== src/Event/Timers/Drain.antt =====
-- The jobs that wait in the loop's queue are all done by `doRunInLoopFuncs` (event/EventLoop.cpp).
use mysql_connect_pool.Prelude.{
  ℕ, suc, ◌≡◌, refl, sym, ap, ◌∙◌, false, List, [], ◌∷◌, ◌++◌, append-nil, append_assoc, length,
  replicate,
}
use mysql_connect_pool.Time.TimerQueue.{Effect, TimerQueue}
use mysql_connect_pool.Event.Loop.{
  checking, calling, Loop, run_func, perform_all, run_next, step, same_place,
}
use mysql_connect_pool.Event.Timers.{
  Job, Timed, Tick, loop_turn, Ticked, going, threw_at, failed_at, do_job, do_first, no_calls,
  with_loop, take_turn, tick, tick_all,
}

module _ {F : Type 0} where
  -- What some jobs make of the queue of timers, one after the other.
  unfoldable pub do_jobs : List (Job F) → TimerQueue F → TimerQueue F
  do_jobs [] q = q
  do_jobs (j ∷ js) q = do_jobs js (do_job j q)

  -- The loop when its queue's first function has been done.
  abbrev one_done : List (Job F) → Loop (Job F) → Loop (Job F)
  one_done [] l = record l { calling_funcs = false; place = checking }
  one_done (j ∷ js) l = record l { funcs = js; ran = l.ran ++ (j ∷ []) }

  run_next-one_done :
      (js : List (Job F)) (l : Loop (Job F)) → run_next no_calls js l ≡ one_done js l
  unfolding run_next perform_all
  run_next-one_done [] l = refl
  run_next-one_done (j ∷ js) l = refl

  module _ (effects : ℕ → F → Effect F) where
    abbrev next : Ticked F → List (Tick F) → Ticked F
    next o ts = elim o [
      | going u ↦ tick_all effects ts u
      | threw_at u ↦ threw_at u
      | failed_at ↦ failed_at
    ]

    func-step :
        (js : List (Job F)) (s : Timed F)
        → s.loop.place ≡ calling
        → s.loop.funcs ≡ js
        → tick effects (loop_turn run_func) s
          ≡ going (record { loop = one_done js s.loop; timer_queue = do_first js s.timer_queue })
    unfolding tick take_turn step same_place with_loop
    func-step js s p w = rw (ap (same_place calling) p) (
        ap
          (λ ks. going (record {
            loop = run_next no_calls ks s.loop;
            timer_queue = do_first ks s.timer_queue;
          }))
          w
        ∙ ap (λ l. going (record { loop = l; timer_queue = do_first js s.timer_queue }))
            (run_next-one_done js s.loop))

    -- In `doRunInLoopFuncs`, after a turn for each function that waits and one more, the jobs that
    -- waited have been done one after the other in their order, none waits, and the loop's thread
    -- is at the test of `quit_`.
    pub run_funcs-do_jobs :
        (js : List (Job F)) (s : Timed F)
        → s.loop.place ≡ calling
        → s.loop.funcs ≡ js
        → (t : Timed F) × (tick_all effects (replicate (suc (length js)) (loop_turn run_func)) s
            ≡ going t)
          × (t.timer_queue ≡ do_jobs js s.timer_queue)
          × (t.loop.ran ≡ s.loop.ran ++ js)
          × (t.loop.funcs ≡ [])
          × (t.loop.place ≡ checking)
    unfolding tick_all do_jobs do_first
    run_funcs-do_jobs [] s p w = (
      record { loop = one_done [] s.loop; timer_queue = s.timer_queue },
      ap (λ o. next o []) (func-step [] s p w),
      refl,
      sym (append-nil s.loop.ran),
      w,
      refl,
    )
    run_funcs-do_jobs (j ∷ js) s p w =
        let u : Timed F = record {
          loop = one_done (j ∷ js) s.loop;
          timer_queue = do_job j s.timer_queue;
        } in
        let (t, run, done, ran, none_left, place) = run_funcs-do_jobs js u p refl in
        (
          t,
          ap (λ o. next o (replicate (suc (length js)) (loop_turn run_func)))
                (func-step (j ∷ js) s p w)
              ∙ run,
          done,
          ran ∙ append_assoc s.loop.ran (j ∷ []) js,
          none_left,
          place,
        )
