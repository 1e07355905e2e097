-- ===== src/Event/Loop/Throws/Steady.antt =====
-- What holds of an event loop at every place of its thread, exceptions included (event/EventLoop.cpp).
use mysql_connect_pool.Prelude.{
  ◌≡◌, refl, sym, ap, ◌∙◌, Bool, true, false, Option, none, some, List, [], ◌∷◌, ◌++◌, arith,
  if◌then◌else◌, inl, inr, append_assoc, Bool-cases, zero, suc, ℕ,
}
use mysql_connect_pool.Event.Loop.{
  Place, outside, checking, polling, calling, leaving, Loop, Call, Turn, queue, run_on_quit, quit,
  call_elsewhere, call_outside, wake, start, check, run_func, leave, poll_returns, make_loop,
  perform, perform_all, queue_in_loop, quit_loop, start_loop, check_quit, run_next,
  run_on_quit_next, step, wakeup_read, pay_wakeup, same_place,
}
use mysql_connect_pool.Event.Loop.Fit.{IsInOrder, perform-IsInOrder, same_place-eq}

-- Whether the thread is inside of the `while` of `loop`.
abbrev pub in_while : Place → Bool
in_while outside = false
in_while leaving = false
in_while _ = true

module _ {F : Type 0} where
  -- The two flags say where the loop's thread is, and nothing that was queued is lost.
  abbrev pub Agrees : Place → Loop F → Type 0
  Agrees p l = (l.looping ≡ in_while p) × (l.calling_funcs ≡ same_place calling p)

  pub perform-flags :
      (b : Bool) (c : Call F) (l : Loop F)
      → ((perform b c l).looping ≡ l.looping) × ((perform b c l).calling_funcs ≡ l.calling_funcs)
  unfolding perform queue_in_loop quit_loop
  perform-flags b (queue none) l = (refl, refl)
  perform-flags b (queue (some f)) l = ground arith
  perform-flags b (run_on_quit f) l = (refl, refl)
  perform-flags b quit l = ground arith

  pub perform_all-flags :
      (cs : List (Call F)) (l : Loop F)
      → ((perform_all cs l).looping ≡ l.looping)
        × ((perform_all cs l).calling_funcs ≡ l.calling_funcs)
  unfolding perform_all
  perform_all-flags [] l = (refl, refl)
  perform_all-flags (c ∷ cs) l =
      let (a, b) = perform_all-flags cs (perform true c l) in
      let (a₁, b₁) = perform-flags true c l in (a ∙ a₁, b ∙ b₁)

  pub record IsSteady (l : Loop F) : Type 0 where
    pub looping-eq : l.looping ≡ in_while l.place
    pub calling-eq : l.calling_funcs ≡ same_place calling l.place
    pub in_order : IsInOrder l

  steady : (p : Place) (l : Loop F) → l.place ≡ p → Agrees p l → IsInOrder l → IsSteady l
  steady p l e a o = record { looping-eq = rw e a.0; calling-eq = rw e a.1; in_order = o }

  pub perform-IsSteady :
      (b : Bool) (c : Call F) (l : Loop F) → IsSteady l → IsSteady (perform b c l)
  perform-IsSteady b c l v =
      let (order, same) = perform-IsInOrder b c l v.in_order in
      let (x, y) = perform-flags b c l in
      steady l.place _ same (x ∙ v.looping-eq, y ∙ v.calling-eq) order

  pub perform_all-IsSteady :
      (cs : List (Call F)) (l : Loop F) → IsSteady l → IsSteady (perform_all cs l)
  unfolding perform_all
  perform_all-IsSteady [] l v = v
  perform_all-IsSteady (c ∷ cs) l v =
      perform_all-IsSteady cs (perform true c l) (perform-IsSteady true c l v)

  steady_at : (p : Place) (l : Loop F) → l.place ≡ p → IsSteady l → Agrees p l
  steady_at p l e v = (v.looping-eq ∙ ap in_while e, v.calling-eq ∙ ap (same_place calling) e)

  pay_wakeup-IsSteady : (n : ℕ) (l : Loop F) → IsSteady l → IsSteady (pay_wakeup n l)
  unfolding pay_wakeup
  pay_wakeup-IsSteady zero l v = v
  pay_wakeup-IsSteady (suc n) l v = steady l.place _ refl (v.looping-eq, v.calling-eq) v.in_order

  check_quit-IsSteady : (l : Loop F) → l.place ≡ checking → IsSteady l → IsSteady (check_quit l)
  unfolding check_quit same_place
  check_quit-IsSteady l e v =
      let (a, b) = steady_at checking l e v in
      elim (Bool-cases l.quitting) [
        | inl q ↦ rw q (steady leaving _ refl (refl, b) v.in_order)
        | inr q ↦ rw q (steady polling _ refl (a, b) v.in_order)
      ]

  wakeup_read-IsSteady : (read : Bool) (l : Loop F) → IsSteady l → IsSteady (wakeup_read read l)
  wakeup_read-IsSteady true l v = steady l.place _ refl (v.looping-eq, v.calling-eq) v.in_order
  wakeup_read-IsSteady false l v = v

  perform-place : (b : Bool) (c : Call F) (l : Loop F) → (perform b c l).place ≡ l.place
  unfolding perform queue_in_loop quit_loop
  perform-place b (queue none) l = refl
  perform-place b (queue (some f)) l = ground arith
  perform-place b (run_on_quit f) l = refl
  perform-place b quit l = ground arith

  pub perform_all-place : (cs : List (Call F)) (l : Loop F) → (perform_all cs l).place ≡ l.place
  unfolding perform_all
  perform_all-place [] l = refl
  perform_all-place (c ∷ cs) l = perform_all-place cs (perform true c l) ∙ perform-place true c l

  -- What `poll` leaves, whether it returns or throws.
  pub polled-IsSteady :
      (read : Bool) (cs : List (Call F)) (l : Loop F)
      → IsSteady l
      → IsSteady (perform_all cs (wakeup_read read l))
        × ((perform_all cs (wakeup_read read l)).place ≡ l.place)
  polled-IsSteady read cs l v =
      let w = wakeup_read-IsSteady read l v in
      (perform_all-IsSteady cs _ w, perform_all-place cs _ ∙ wakeup_read-place read l)
    where
      wakeup_read-place : (b : Bool) (l : Loop F) → (wakeup_read b l).place ≡ l.place
      wakeup_read-place true l = refl
      wakeup_read-place false l = refl

  -- A turn returns, and leaves the loop steady.
  abbrev pub StaysSteady : Option (Loop F) → Type 0
  StaysSteady none = ⊥
  StaysSteady (some l) = IsSteady l

  pub start_loop-StaysSteady :
      (l : Loop F) → l.place ≡ outside → IsSteady l → StaysSteady (start_loop l)
  unfolding start_loop same_place
  start_loop-StaysSteady l e v =
      let (a, b) = steady_at outside l e v in rw a (steady checking _ refl (refl, b) v.in_order)

  module _ (effects : F → List (Call F)) where
    pub run_next-IsSteady :
        (fs : List F) (l : Loop F)
        → l.place ≡ calling
        → l.funcs ≡ fs
        → IsSteady l
        → IsSteady (run_next effects fs l)
    unfolding run_next same_place
    run_next-IsSteady [] l e w v =
        steady checking _ refl ((steady_at calling l e v).0, refl) v.in_order
    run_next-IsSteady (f ∷ fs) l e w v = perform_all-IsSteady (effects f) _ (
        steady calling (record l { funcs = fs; ran = l.ran ++ (f ∷ []) }) e
          (steady_at calling l e v)
          (append_assoc l.ran (f ∷ []) fs ∙ ap (λ gs. l.ran ++ gs) (sym w) ∙ v.in_order))

    pub run_on_quit_next-IsSteady :
        (fs : List F) (l : Loop F)
        → l.place ≡ leaving
        → IsSteady l
        → IsSteady (run_on_quit_next effects fs l)
    unfolding run_on_quit_next same_place
    run_on_quit_next-IsSteady [] l e v = steady outside _ refl (steady_at leaving l e v) v.in_order
    run_on_quit_next-IsSteady (f ∷ fs) l e v =
        perform_all-IsSteady (effects f) _
          (steady leaving (record l { funcs_on_quit = fs }) e (steady_at leaving l e v) v.in_order)

    pub run_on_quit_next-place :
        (f : F) (fs : List F) (l : Loop F)
        → l.place ≡ leaving
        → (run_on_quit_next effects (f ∷ fs) l).place ≡ leaving
    unfolding run_on_quit_next
    run_on_quit_next-place f fs l e =
        perform_all-place (effects f) (record l { funcs_on_quit = fs }) ∙ e

    -- A turn that can come at one place only.
    only_at-StaysSteady :
        (p : Place) (l : Loop F) (o : Option (Loop F))
        → IsSteady l
        → (l.place ≡ p → StaysSteady o)
        → StaysSteady (if same_place p l.place then o else some l)
    only_at-StaysSteady p l o v f = elim (Bool-cases (same_place p l.place)) [
      | inl e ↦ rw e (f (sym (same_place-eq p l.place e)))
      | inr e ↦ rw e v
    ]

    pub step-StaysSteady : (t : Turn F) (l : Loop F) → IsSteady l → StaysSteady (step effects t l)
    unfolding step same_place
    step-StaysSteady (call_elsewhere c) l v = perform-IsSteady false c l v
    step-StaysSteady wake l v = pay_wakeup-IsSteady l.waking l v
    step-StaysSteady (call_outside c) l v =
        only_at-StaysSteady outside l _ v (λ e. perform-IsSteady true c l v)
    step-StaysSteady start l v =
        only_at-StaysSteady outside l _ v (λ e. start_loop-StaysSteady l e v)
    step-StaysSteady check l v = only_at-StaysSteady checking l _ v (λ e. check_quit-IsSteady l e v)
    step-StaysSteady (poll_returns read cs) l v = only_at-StaysSteady polling l _ v (λ e.
        let (w, same) = polled-IsSteady read cs l v in
        steady calling _ refl ((steady_at polling _ (same ∙ e) w).0, refl) w.in_order)
    step-StaysSteady run_func l v =
        only_at-StaysSteady calling l _ v (λ e. run_next-IsSteady l.funcs l e refl v)
    step-StaysSteady leave l v =
        only_at-StaysSteady leaving l _ v (λ e. run_on_quit_next-IsSteady l.funcs_on_quit l e v)

pub make_loop-IsSteady : {F : Type 0} → IsSteady (make_loop {F = F})
unfolding make_loop same_place
make_loop-IsSteady = record { looping-eq = refl; calling-eq = refl; in_order = refl }
