-- ===== src/Event/Loop/Throws/Unwind.antt =====
-- The end of an event loop that a function's exception leaves (event/EventLoop.cpp).
use mysql_connect_pool.Prelude.{
  ℕ, zero, suc, ◌≡◌, ◌≢◌, refl, sym, ap, ◌∙◌, Bool, true, false, Option, none, some, List, [], ◌∷◌,
  ◌++◌, arith, inl, inr, length, replicate, Option-cases,
}
use mysql_connect_pool.Event.Loop.{
  outside, calling, leaving, Loop, Call, queue, run_on_quit, quit, run_func, leave, perform,
  perform_all, queue_in_loop, quit_loop, run_next, run_on_quit_next, same_place,
}
use mysql_connect_pool.Event.Loop.Throws.{
  Ending, returned, threw, Frame, turn, ending_of, throw_out, after_quit_func, unwind, after_func,
  call_func, call_quit_func, advance, advance_all,
}
use mysql_connect_pool.Event.Loop.Throws.Steady.{perform_all-place, perform_all-flags}

-- Whether a function registers functions on quit.
unfoldable pub registers : {F : Type 0} → List (Call F) → Bool
registers [] = false
registers (run_on_quit f ∷ cs) = true
registers (_ ∷ cs) = registers cs

module _ {F E : Type 0} (raises : F → Option E) where
  -- What the functions on quit make of the end of `loop`, and which of them do not run.
  unfoldable pub quit_ending : List F → Option E → Ending E
  quit_ending [] caught = ending_of caught
  quit_ending (f ∷ fs) caught = elim (raises f) [ none ↦ quit_ending fs caught | some e ↦ threw e ]

  unfoldable pub not_run : List F → List F
  not_run [] = []
  not_run (f ∷ fs) = elim (raises f) [ none ↦ not_run fs | some e ↦ fs ]

quit_ending-ne-returned :
    {F E : Type 0} (raises : F → Option E) (fs : List F) (e : E)
    → quit_ending raises fs (some e) ≢ returned
unfolding quit_ending
quit_ending-ne-returned raises [] e x = cc
quit_ending-ne-returned raises (f ∷ fs) e x = elim (Option-cases (raises f)) [
  | inl w ↦ quit_ending-ne-returned raises fs e (rw (quit_ending, w) at x)
  | inr (y, w) ↦ let z = rw (quit_ending, w) at x in cc
]

module _ {F : Type 0} where
  queue-kept :
      (f : F) (l : Loop F)
      → ((perform true (queue (some f)) l).funcs_on_quit ≡ l.funcs_on_quit)
        × ((perform true (queue (some f)) l).ran ≡ l.ran)
  unfolding perform queue_in_loop
  queue-kept f l = ground arith

  -- What the calls of a function leave as it is.
  perform_all-kept :
      (cs : List (Call F)) (l : Loop F)
      → registers cs ≡ false
      → ((perform_all cs l).funcs_on_quit ≡ l.funcs_on_quit) × ((perform_all cs l).ran ≡ l.ran)
  unfolding perform_all registers perform queue_in_loop quit_loop
  perform_all-kept [] l r = (refl, refl)
  perform_all-kept (queue none ∷ cs) l r = perform_all-kept cs _ r
  perform_all-kept (queue (some f) ∷ cs) l r =
      let (a, b) = perform_all-kept cs _ r in let (a₁, b₁) = queue-kept f l in (a ∙ a₁, b ∙ b₁)
  perform_all-kept (run_on_quit f ∷ cs) l r = cc
  perform_all-kept (quit ∷ cs) l r = perform_all-kept cs _ r

module _ {F E : Type 0} (effects : F → List (Call F)) (raises : F → Option E) (is_std : E → Bool)
    (quiet : (f : F) → registers (effects f) ≡ false) where
  -- The end of `loop`, from the first function on quit.
  abbrev Ends : List F → Frame F E → Frame F E → Type 0
  Ends fs s t =
      (t.loop.place ≡ outside)
      × (t.ending ≡ quit_ending raises fs s.loop_exception)
      × (t.loop.funcs_on_quit ≡ not_run raises fs)
      × (t.loop.looping ≡ s.loop.looping)
      × (t.loop.ran ≡ s.loop.ran)

  abbrev leaves : ℕ → Frame F E → Option (Frame F E)
  leaves n s = advance_all effects raises is_std (replicate n (turn leave)) s

  idle : (n : ℕ) (s : Frame F E) → s.loop.place ≡ outside → leaves n s ≡ some s
  unfolding advance_all advance same_place
  idle zero s p = refl
  idle (suc n) s p = rw (ap (same_place leaving) p) (idle n s p)

  leave-step :
      (n : ℕ) (fs : List F) (s : Frame F E)
      → s.loop.place ≡ leaving
      → s.loop.funcs_on_quit ≡ fs
      → leaves (suc n) s ≡ leaves n (call_quit_func effects raises fs s)
  unfolding advance_all advance same_place
  leave-step n fs s p w = rw (ap (same_place leaving) p, w) refl

  leaves-Ends :
      (fs : List F) (s : Frame F E)
      → s.loop.place ≡ leaving
      → s.loop.funcs_on_quit ≡ fs
      → (t : Frame F E) × (leaves (suc (length fs)) s ≡ some t) × Ends fs s t
  unfolding call_quit_func after_quit_func quit_ending not_run run_on_quit_next advance_all
  leaves-Ends [] s p w = (_, leave-step 0 [] s p w, (refl, refl, w, refl, refl))
  leaves-Ends (f ∷ fs) s p w =
      let l : Loop F = record s.loop { funcs_on_quit = fs } in
      let (quits, runs) = perform_all-kept (effects f) l (quiet f) in
      let looping = (perform_all-flags (effects f) l).0 in
      let place = perform_all-place (effects f) l in
      let first = leave-step (suc (length fs)) (f ∷ fs) s p w in
      elim (Option-cases (raises f)) [
        | inl e ↦
            let (t, run, (out, ending, rest, same, ran)) =
              leaves-Ends fs (record s { loop = perform_all (effects f) l }) (place ∙ p) quits in
            (
              t,
              first ∙ rw e run,
              (out, rw (quit_ending, e) ending, rw (not_run, e) rest, same ∙ looping, ran ∙ runs),
            )
        | inr (x, e) ↦ (
          throw_out x (record s { loop = perform_all (effects f) l }),
          first ∙ rw e (idle (suc (length fs)) _ refl),
          (refl, rw (quit_ending, e) refl, rw (not_run, e) quits, looping, runs),
        )
      ]

  run_func-step :
      (fs : List F) (s : Frame F E)
      → s.loop.place ≡ calling
      → s.loop.funcs ≡ fs
      → advance effects raises is_std (turn run_func) s
        ≡ some (call_func effects raises is_std fs s)
  unfolding advance same_place
  run_func-step fs s p w = rw (ap (same_place calling) p, w) refl

  call-step :
      (n : ℕ) (fs : List F) (s : Frame F E)
      → s.loop.place ≡ calling
      → s.loop.funcs ≡ fs
      → advance_all effects raises is_std (turn run_func ∷ replicate n (turn leave)) s
        ≡ leaves n (call_func effects raises is_std fs s)
  unfolding advance_all
  call-step n fs s p w =
      ap (λ o. elim o [ none ↦ none | some t ↦ leaves n t ]) (run_func-step fs s p w)

  raised :
      {o : Option E} {e : E}
      → o ≡ some e
      → (s : Frame F E) → after_func is_std o s ≡ unwind is_std e s
  unfolding after_func
  raised r s = rw r refl

  first_func :
      (n : ℕ) (f : F) (fs : List F) (e : E) (s : Frame F E)
      → s.loop.place ≡ calling
      → s.loop.funcs ≡ f ∷ fs
      → raises f ≡ some e
      → advance_all effects raises is_std (turn run_func ∷ replicate n (turn leave)) s
        ≡ leaves n (unwind is_std e (record s { loop = run_next effects (f ∷ fs) s.loop }))
  unfolding advance_all advance same_place call_func
  first_func n f fs e s p w r = call-step n (f ∷ fs) s p w ∙ ap (leaves n) (raised r _)

  -- A function of the queue throws a `std::exception`, no function registers functions on quit, and
  -- no other thread takes a turn: then after one turn for each function on quit, and one for the end of `loop`, the loop's thread
  -- has left `loop`, which was not returned from but threw: that exception, or the one that a
  -- function on quit threw, behind which no other function on quit has run. `looping_` is cleared,
  -- and the function that threw is the last of the queue that ran.
  pub throw-Ends :
      (f : F) (fs : List F) (e : E) (s : Frame F E)
      → s.loop.place ≡ calling
      → s.loop.funcs ≡ f ∷ fs
      → raises f ≡ some e
      → is_std e ≡ true
      → (t : Frame F E) × (advance_all effects raises is_std
            (turn run_func ∷ replicate (suc (length s.loop.funcs_on_quit)) (turn leave))
            s
          ≡ some t)
        × (t.loop.place ≡ outside)
        × (t.ending ≡ quit_ending raises s.loop.funcs_on_quit (some e))
        × (t.ending ≢ returned)
        × (t.loop.funcs_on_quit ≡ not_run raises s.loop.funcs_on_quit)
        × (t.loop.looping ≡ false)
        × (t.loop.ran ≡ s.loop.ran ++ (f ∷ []))
  unfolding unwind run_next
  throw-Ends f fs e s p w r std =
      let l : Loop F = record s.loop { funcs = fs; ran = s.loop.ran ++ (f ∷ []) } in
      let (quits, runs) = perform_all-kept (effects f) l (quiet f) in
      let m : Loop F = record (perform_all (effects f) l) {
        looping = false;
        calling_funcs = false;
        place = leaving;
      } in
      let (t, run, (out, ending, rest, looping, ran)) =
        leaves-Ends s.loop.funcs_on_quit (record s { loop = m; loop_exception = some e }) refl
          quits in
      (
        t,
        first_func (suc (length s.loop.funcs_on_quit)) f fs e s p w r ∙ rw std run,
        out,
        ending,
        (λ x. quit_ending-ne-returned raises s.loop.funcs_on_quit e (sym ending ∙ x)),
        rest,
        looping,
        ran ∙ runs,
      )
