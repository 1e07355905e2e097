-- ===== src/Event/Loop/Wakeup.antt =====
-- No wake-up of an event loop is lost, and queued functions run in order (event/EventLoop.cpp).
use mysql_connect_pool.Prelude.{
  ℕ, zero, suc, ◌+◌, ◌<◌, ◌≡◌, refl, sym, ap, ◌∙◌, Bool, true, false, Option, none, some, List, [],
  ◌∷◌, ◌++◌, arith, if◌then◌else◌, ◌⊎◌, inl, inr, length, append_assoc, Bool-cases,
}
use mysql_connect_pool.Event.Loop.{
  Place, outside, checking, polling, calling, leaving, Loop, Call, Turn, call_elsewhere,
  call_outside, wake, start, check, run_func, leave, poll_returns, make_loop, perform, perform_all,
  start_loop, check_quit, run_next, run_on_quit_next, step, run, wakeup_read, pay_wakeup,
  same_place,
}
use mysql_connect_pool.Event.Loop.Fit.{
  IsAwake, Fits, IsInOrder, IsFit, elsewhere-Fits, inside-Fits, perform-IsInOrder,
  perform_all-IsInOrder, perform_all-Fits, perform_all-looping, same_place-eq,
}

module _ {F : Type 0} where
  -- A turn returns, and leaves the loop fit.
  abbrev pub Keeps : Option (Loop F) → Type 0
  Keeps none = ⊥
  Keeps (some l) = IsFit l

  at : (p : Place) (l : Loop F) → l.place ≡ p → Fits p l → IsInOrder l → IsFit l
  at p l e f o = record { fits = simp e f; in_order = o }

  module _ (effects : F → List (Call F)) where
    run_next-IsFit :
        (fs : List F) (l : Loop F)
        → l.place ≡ calling
        → l.funcs ≡ fs
        → IsFit l
        → IsFit (run_next effects fs l)
    unfolding run_next
    run_next-IsFit [] l e w v = at checking _ refl (inl w, simp e at v.fits) v.in_order
    run_next-IsFit (f ∷ fs) l e w v =
        let m : Loop F = record l { funcs = fs; ran = l.ran ++ (f ∷ []) } in
        let (order, same) =
          perform_all-IsInOrder (effects f) m
            (append_assoc l.ran (f ∷ []) fs ∙ ap (λ gs. l.ran ++ gs) (sym w) ∙ v.in_order) in
        at calling _ (same ∙ e) (perform_all-looping (effects f) m (simp e at v.fits)) order

    run_on_quit_next-IsFit :
        (fs : List F) (l : Loop F)
        → l.place ≡ leaving
        → IsFit l
        → IsFit (run_on_quit_next effects fs l)
    unfolding run_on_quit_next
    run_on_quit_next-IsFit [] l e v = at outside _ refl (simp e at v.fits) v.in_order
    run_on_quit_next-IsFit (f ∷ fs) l e v =
        let m : Loop F = record l { funcs_on_quit = fs } in
        let (order, same) = perform_all-IsInOrder (effects f) m v.in_order in
        at leaving _ (same ∙ e) (perform_all-Fits (effects f) m (simp e at v.fits)) order

    poll_returns-IsFit :
        (read : Bool) (cs : List (Call F)) (l : Loop F)
        → l.place ≡ polling
        → IsFit l
        → IsFit
            (record (perform_all cs (wakeup_read read l)) { calling_funcs = true; place = calling })
    poll_returns-IsFit true cs l e v =
        let fit : Fits polling l = simp e at v.fits in
        at calling _ refl (perform_all-looping cs (wakeup_read true l) fit.1)
          (perform_all-IsInOrder cs (wakeup_read true l) v.in_order).0
    poll_returns-IsFit false cs l e v =
        let fit : Fits polling l = simp e at v.fits in
        at calling _ refl (perform_all-looping cs l fit.1) (perform_all-IsInOrder cs l v.in_order).0

    check_quit-IsFit : (l : Loop F) → l.place ≡ checking → IsFit l → IsFit (check_quit l)
    unfolding check_quit
    check_quit-IsFit l e v =
        let fit : Fits checking l = simp e at v.fits in
        elim (Bool-cases l.quitting) [
          | inl q ↦ simp q (at leaving _ refl (fit.0, refl) v.in_order)
          | inr q ↦ simp q (
              at polling (record l { quitting = false; place = polling }) refl
                (fit.0, fit.1, inl refl) v.in_order)
        ]

    start_loop-Keeps : (l : Loop F) → l.place ≡ outside → IsFit l → Keeps (start_loop l)
    unfolding start_loop
    start_loop-Keeps l e v =
        let fit : Fits outside l = simp e at v.fits in
        simp (fit.1) (at checking _ refl (fit.0, refl) v.in_order)

    call-IsFit : (c : Call F) (l : Loop F) → IsFit l → IsFit (perform false c l)
    call-IsFit c l v =
        let (order, same) = perform-IsInOrder false c l v.in_order in
        at l.place _ same (elsewhere-Fits l.place c l v.fits) order

    wake-Fits :
        (p : Place) (l : Loop F) (n : ℕ)
        → l.waking ≡ suc n
        → Fits p l
        → Fits p (record l { wakeups = suc l.wakeups; waking = n })
    wake-Fits outside l n w h = ground (arith, h)
    wake-Fits checking l n w h = ground (arith, h)
    wake-Fits polling l n w h = ground (arith, h)
    wake-Fits calling l n w h = h
    wake-Fits leaving l n w h = ground (arith, h)

    pay_wakeup-IsFit : (n : ℕ) (l : Loop F) → l.waking ≡ n → IsFit l → IsFit (pay_wakeup n l)
    unfolding pay_wakeup
    pay_wakeup-IsFit zero l w v = v
    pay_wakeup-IsFit (suc n) l w v = at l.place _ refl (wake-Fits l.place l n w v.fits) v.in_order

    -- A turn that can come at one place only.
    only_at-Keeps :
        (p : Place) (l : Loop F) (o : Option (Loop F))
        → IsFit l
        → (l.place ≡ p → Keeps o)
        → Keeps (if same_place p l.place then o else some l)
    only_at-Keeps p l o v f = elim (Bool-cases (same_place p l.place)) [
      | inl e ↦ rw e (f (sym (same_place-eq p l.place e)))
      | inr e ↦ rw e v
    ]

    step-Keeps : (t : Turn F) (l : Loop F) → IsFit l → Keeps (step effects t l)
    unfolding step
    step-Keeps (call_elsewhere c) l v = call-IsFit c l v
    step-Keeps wake l v = pay_wakeup-IsFit l.waking l refl v
    step-Keeps (call_outside c) l v = only_at-Keeps outside l _ v (λ e.
        let (order, same) = perform-IsInOrder true c l v.in_order in
        at outside _ (same ∙ e) (inside-Fits c l (simp e at v.fits)) order)
    step-Keeps start l v = only_at-Keeps outside l _ v (λ e. start_loop-Keeps l e v)
    step-Keeps check l v = only_at-Keeps checking l _ v (λ e. check_quit-IsFit l e v)
    step-Keeps (poll_returns read cs) l v =
        only_at-Keeps polling l _ v (λ e. poll_returns-IsFit read cs l e v)
    step-Keeps run_func l v = only_at-Keeps calling l _ v (λ e. run_next-IsFit l.funcs l e refl v)
    step-Keeps leave l v =
        only_at-Keeps leaving l _ v (λ e. run_on_quit_next-IsFit l.funcs_on_quit l e v)

    rest-Keeps :
        (ts : List (Turn F)) (o : Option (Loop F))
        → Keeps o
        → ((m : Loop F) → IsFit m → Keeps (run effects ts m))
        → Keeps (elim o [ none ↦ none | some m ↦ run effects ts m ])
    rest-Keeps ts none k f = k
    rest-Keeps ts (some m) k f = f m k

    run-Keeps : (ts : List (Turn F)) (l : Loop F) → IsFit l → Keeps (run effects ts l)
    unfolding run
    run-Keeps [] l v = v
    run-Keeps (t ∷ ts) l v =
        rest-Keeps ts (step effects t l) (step-Keeps t l v) (λ m k. run-Keeps ts m k)

    make_loop-IsFit : IsFit (make_loop {F = F})
    unfolding make_loop
    make_loop-IsFit = record { fits = (inl refl, refl); in_order = refl }

    awake :
        (l : Loop F)
        → (0 < length l.funcs) ⊎ (l.quitting ≡ true)
        → (l.funcs ≡ []) ⊎ IsAwake l
        → (l.quitting ≡ false) ⊎ IsAwake l
        → IsAwake l
    awake l w (inr a) q = a
    awake l w (inl n) (inr a) = a
    awake l (inl w) (inl n) (inl q) = omega (arith, w, ap length n)
    awake l (inr w) (inl n) (inl q) = ground (arith, w, q)

    -- If no queued function, no function on quit and no callback throws: however the threads take
    -- turns, and whatever the functions call, while the loop's thread is in
    -- `poll`, with a function in the queue or a request to quit made since, the eventfd can be read
    -- or a thread is about to write to it.
    pub run-IsAwake :
        (ts : List (Turn F)) (l : Loop F)
        → run effects ts make_loop ≡ some l
        → l.place ≡ polling
        → (0 < length l.funcs) ⊎ (l.quitting ≡ true)
        → 0 < l.wakeups + l.waking
    run-IsAwake ts l e p w =
        let v : IsFit l = rw e at (run-Keeps ts make_loop make_loop-IsFit) in
        let fit : Fits polling l = simp p at v.fits in awake l w fit.0 fit.2

    -- However the threads take turns, no assertion fails, and the functions that have run, and behind
    -- them those that wait, are those that were queued, each once and in the order of their queueing.
    run-queued :
        (ts : List (Turn F))
        → (l : Loop F) × (run effects ts make_loop ≡ some l) × (l.ran ++ l.funcs ≡ l.queued)
    run-queued ts = go (run effects ts make_loop) (run-Keeps ts make_loop make_loop-IsFit)
      where
        go :
            (o : Option (Loop F))
            → Keeps o
            → (l : Loop F) × (o ≡ some l) × (l.ran ++ l.funcs ≡ l.queued)
        go none k = elim k [ ]
        go (some l) k = (l, refl, k.in_order)
