-- ===== src/Event/Loop/Throws/Runs.antt =====
-- Whatever functions throw, an event loop's flags say where its thread is, and it loses no function
-- (event/EventLoop.cpp).
use mysql_connect_pool.Prelude.{
  ◌≡◌, refl, sym, ap, ◌∙◌, Bool, true, false, Option, none, some, List, [], ◌∷◌, ◌++◌,
  if◌then◌else◌, inl, inr, Bool-cases,
}
use mysql_connect_pool.Event.Loop.{
  Place, outside, polling, calling, leaving, Loop, Call, start, run_func, leave, poll_returns,
  call_elsewhere, call_outside, wake, check, perform_all, wakeup_read, step, same_place, start_loop,
}
use mysql_connect_pool.Event.Loop.Fit.{same_place-eq}
use mysql_connect_pool.Event.Loop.Throws.{
  Frame, Happening, turn, poll_throws, make_frame, after_quit_func, unwind, after_func, call_func,
  call_quit_func, enter, advance_loop, poll_fails, advance, advance_all,
}
use mysql_connect_pool.Event.Loop.Throws.Steady.{
  in_while, make_loop-IsSteady, IsSteady, StaysSteady, polled-IsSteady, start_loop-StaysSteady,
  run_next-IsSteady, run_on_quit_next-IsSteady, run_on_quit_next-place, step-StaysSteady,
}

-- The flags are cleared wherever an exception leaves to.
thrown :
    {F : Type 0} {l : Loop F} (p : Place)
    → in_while p ≡ false
    → same_place calling p ≡ false
    → IsSteady l
    → IsSteady (record l { looping = false; calling_funcs = false; place = p })
thrown p e w v = record { looping-eq = sym e; calling-eq = sym w; in_order = v.in_order }

module _ {F E : Type 0} where
  -- What happens is possible, and leaves the loop steady.
  abbrev pub Keeps : Option (Frame F E) → Type 0
  Keeps none = ⊥
  Keeps (some s) = IsSteady s.loop

  advance_loop-Keeps :
      (o : Option (Loop F)) (s : Frame F E) → StaysSteady o → Keeps (advance_loop o s)
  unfolding advance_loop
  advance_loop-Keeps none s k = k
  advance_loop-Keeps (some l) s k = k

  enter-Keeps : (o : Option (Loop F)) (s : Frame F E) → StaysSteady o → Keeps (enter o s)
  unfolding enter
  enter-Keeps none s k = k
  enter-Keeps (some l) s k = k

  -- What happens at one place only.
  only_at-Keeps :
      (p : Place) (s : Frame F E) (o : Option (Frame F E))
      → IsSteady s.loop
      → (s.loop.place ≡ p → Keeps o)
      → Keeps (if same_place p s.loop.place then o else some s)
  only_at-Keeps p s o v f = elim (Bool-cases (same_place p s.loop.place)) [
    | inl e ↦ rw e (f (sym (same_place-eq p s.loop.place e)))
    | inr e ↦ rw e v
  ]

  at_place-IsSteady :
      (p : Place) (s t : Frame F E)
      → IsSteady s.loop
      → (s.loop.place ≡ p → IsSteady t.loop)
      → IsSteady (if same_place p s.loop.place then t else s).loop
  at_place-IsSteady p s t v f = elim (Bool-cases (same_place p s.loop.place)) [
    | inl e ↦ rw e (f (sym (same_place-eq p s.loop.place e)))
    | inr e ↦ rw e v
  ]

  after_quit_func-IsSteady :
      (o : Option E) (s : Frame F E)
      → s.loop.place ≡ leaving
      → IsSteady s.loop
      → IsSteady (after_quit_func o s).loop
  unfolding after_quit_func same_place
  after_quit_func-IsSteady none s p v = v
  after_quit_func-IsSteady (some e) s p v = record {
    looping-eq = v.looping-eq ∙ ap in_while p;
    calling-eq = v.calling-eq ∙ ap (same_place calling) p;
    in_order = v.in_order;
  }

  module _ (is_std : E → Bool) where
    unwind-IsSteady : (e : E) (s : Frame F E) → IsSteady s.loop → IsSteady (unwind is_std e s).loop
    unfolding unwind same_place
    unwind-IsSteady e s v = elim (Bool-cases (is_std e)) [
      | inl w ↦ rw w (thrown leaving refl refl v)
      | inr w ↦ rw w (thrown outside refl refl v)
    ]

    after_func-IsSteady :
        (o : Option E) (s : Frame F E) → IsSteady s.loop → IsSteady (after_func is_std o s).loop
    unfolding after_func
    after_func-IsSteady none s v = v
    after_func-IsSteady (some e) s v = unwind-IsSteady e s v

  rest-Keeps :
      (o : Option (Frame F E)) (f : Frame F E → Option (Frame F E))
      → Keeps o
      → ((t : Frame F E) → IsSteady t.loop → Keeps (f t))
      → Keeps (elim o [ none ↦ none | some t ↦ f t ])
  rest-Keeps none f k g = k
  rest-Keeps (some t) f k g = g t k

  result : (o : Option (Frame F E)) → Keeps o → (s : Frame F E) × (o ≡ some s) × IsSteady s.loop
  result none k = elim k [ ]
  result (some s) k = (s, refl, k)

  module _ (effects : F → List (Call F)) (raises : F → Option E) where
    call_quit_func-IsSteady :
        (fs : List F) (s : Frame F E)
        → s.loop.place ≡ leaving
        → IsSteady s.loop
        → IsSteady (call_quit_func effects raises fs s).loop
    unfolding call_quit_func
    call_quit_func-IsSteady [] s p v = run_on_quit_next-IsSteady effects [] s.loop p v
    call_quit_func-IsSteady (f ∷ fs) s p v =
        after_quit_func-IsSteady (raises f) _ (run_on_quit_next-place effects f fs s.loop p)
          (run_on_quit_next-IsSteady effects (f ∷ fs) s.loop p v)

    module _ (is_std : E → Bool) where
      call_func-IsSteady :
          (fs : List F) (s : Frame F E)
          → s.loop.place ≡ calling
          → s.loop.funcs ≡ fs
          → IsSteady s.loop
          → IsSteady (call_func effects raises is_std fs s).loop
      unfolding call_func
      call_func-IsSteady [] s p w v = run_next-IsSteady effects [] s.loop p w v
      call_func-IsSteady (f ∷ fs) s p w v =
          after_func-IsSteady is_std (raises f) _ (run_next-IsSteady effects (f ∷ fs) s.loop p w v)

      advance-Keeps :
          (h : Happening F E) (s : Frame F E)
          → IsSteady s.loop
          → Keeps (advance effects raises is_std h s)
      unfolding advance poll_fails
      advance-Keeps (turn run_func) s v =
          at_place-IsSteady calling s _ v (λ e. call_func-IsSteady s.loop.funcs s e refl v)
      advance-Keeps (turn leave) s v =
          at_place-IsSteady leaving s _ v (λ e. call_quit_func-IsSteady s.loop.funcs_on_quit s e v)
      advance-Keeps (turn start) s v =
          only_at-Keeps outside s _ v
            (λ e. enter-Keeps (start_loop s.loop) s (start_loop-StaysSteady s.loop e v))
      advance-Keeps (turn (poll_returns read cs)) s v =
          only_at-Keeps polling s _ v
            (λ e. advance_loop-Keeps _ _ (step-StaysSteady effects (poll_returns read cs) s.loop v))
      advance-Keeps (turn (call_elsewhere c)) s v =
          advance_loop-Keeps (step effects (call_elsewhere c) s.loop) s
            (step-StaysSteady effects (call_elsewhere c) s.loop v)
      advance-Keeps (turn (call_outside c)) s v =
          advance_loop-Keeps _ s (step-StaysSteady effects (call_outside c) s.loop v)
      advance-Keeps (turn wake) s v =
          advance_loop-Keeps (step effects wake s.loop) s (step-StaysSteady effects wake s.loop v)
      advance-Keeps (turn check) s v =
          advance_loop-Keeps _ s (step-StaysSteady effects check s.loop v)
      advance-Keeps (poll_throws read cs e) s v = at_place-IsSteady polling s _ v (λ p.
          unwind-IsSteady is_std e
            (record s { loop = perform_all cs (wakeup_read read s.loop); event_handling = true })
            (polled-IsSteady read cs s.loop v).0)

      advance_all-Keeps :
          (hs : List (Happening F E)) (s : Frame F E)
          → IsSteady s.loop
          → Keeps (advance_all effects raises is_std hs s)
      unfolding advance_all
      advance_all-Keeps [] s v = v
      advance_all-Keeps (h ∷ hs) s v =
          rest-Keeps (advance effects raises is_std h s) (advance_all effects raises is_std hs)
            (advance-Keeps h s v) (λ t. advance_all-Keeps hs t)

      -- However the threads take turns, and whatever functions and callbacks throw: no assertion
      -- fails, `looping_` is set just from the start of the loop's `while` to its end,
      -- `callingFuncs_` just in `doRunInLoopFuncs`, and the functions that were called, and behind
      -- them those that wait, are those that were queued, each once and in the order of their
      -- queueing.
      pub advance_all-queued :
          (hs : List (Happening F E))
          → (s : Frame F E) × (advance_all effects raises is_std hs make_frame ≡ some s)
            × (s.loop.looping ≡ in_while s.loop.place)
            × (s.loop.calling_funcs ≡ same_place calling s.loop.place)
            × (s.loop.ran ++ s.loop.funcs ≡ s.loop.queued)
      unfolding make_frame
      advance_all-queued hs =
          let (s, e, v) =
            result (advance_all effects raises is_std hs make_frame)
              (advance_all-Keeps hs make_frame make_loop-IsSteady) in
          (s, e, v.looping-eq, v.calling-eq, v.in_order)
