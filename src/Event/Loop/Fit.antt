-- ===== src/Event/Loop/Fit.antt =====
-- What holds of an event loop at each place of its thread (event/EventLoop.cpp).
use mysql_connect_pool.Prelude.{
  ◌+◌, ◌<◌, ◌≡◌, refl, sym, ap, ◌∙◌, Bool, true, false, not, ◌||◌, none, some, List, [], ◌∷◌, ◌++◌,
  arith, ◌⊎◌, inl, inr, append_assoc, Bool-cases,
}
use mysql_connect_pool.Event.Loop.{
  Place, outside, checking, polling, calling, leaving, Loop, Call, queue, run_on_quit, quit,
  queue_in_loop, quit_loop, perform, perform_all, wake_up, same_place,
}

pub same_place-eq : (p q : Place) → same_place p q ≡ true → p ≡ q
unfolding same_place
same_place-eq p q = ground arith

module _ {F : Type 0} where
  -- The eventfd can be read, or another thread is about to write to it.
  abbrev pub IsAwake : Loop F → Type 0
  IsAwake l = 0 < l.wakeups + l.waking

  -- Outside of `doRunInLoopFuncs`, a function waits only with a wake-up on its way; in `poll`, the
  -- same holds for a request to quit. `looping_` is set just from the start of the loop to its end.
  abbrev pub Fits : Place → Loop F → Type 0
  Fits outside l = ((l.funcs ≡ []) ⊎ IsAwake l) × (l.looping ≡ false)
  Fits checking l = ((l.funcs ≡ []) ⊎ IsAwake l) × (l.looping ≡ true)
  Fits polling l =
      ((l.funcs ≡ []) ⊎ IsAwake l) × (l.looping ≡ true) × ((l.quitting ≡ false) ⊎ IsAwake l)
  Fits calling l = l.looping ≡ true
  Fits leaving l = ((l.funcs ≡ []) ⊎ IsAwake l) × (l.looping ≡ false)

  -- The functions that ran, and behind them those that wait, are those that were queued.
  abbrev pub IsInOrder : Loop F → Type 0
  IsInOrder l = l.ran ++ l.funcs ≡ l.queued

  pub record IsFit (l : Loop F) : Type 0 where
    pub fits : Fits l.place l
    pub in_order : IsInOrder l

  -- A call by another thread.
  pub elsewhere-Fits : (p : Place) (c : Call F) (l : Loop F) → Fits p l → Fits p (perform false c l)
  unfolding perform queue_in_loop quit_loop
  elsewhere-Fits p (queue none) l h = h
  elsewhere-Fits outside (run_on_quit f) l h = h
  elsewhere-Fits checking (run_on_quit f) l h = h
  elsewhere-Fits polling (run_on_quit f) l h = h
  elsewhere-Fits calling (run_on_quit f) l h = h
  elsewhere-Fits leaving (run_on_quit f) l h = h
  elsewhere-Fits outside (queue (some f)) l h = ground (arith, h)
  elsewhere-Fits checking (queue (some f)) l h = ground (arith, h)
  elsewhere-Fits polling (queue (some f)) l h = ground (arith, h)
  elsewhere-Fits calling (queue (some f)) l h = ground (arith, h)
  elsewhere-Fits leaving (queue (some f)) l h = ground (arith, h)
  elsewhere-Fits outside quit l h = ground (arith, h)
  elsewhere-Fits checking quit l h = ground (arith, h)
  elsewhere-Fits polling quit l h = ground (arith, h)
  elsewhere-Fits calling quit l h = ground (arith, h)
  elsewhere-Fits leaving quit l h = ground (arith, h)

  -- A call by the loop's thread, outside of the loop and while it runs.
  pub inside-Fits : (c : Call F) (l : Loop F) → Fits outside l → Fits outside (perform true c l)
  unfolding perform queue_in_loop quit_loop
  inside-Fits (queue none) l h = h
  inside-Fits (queue (some f)) l h = ground (arith, h)
  inside-Fits (run_on_quit f) l h = h
  inside-Fits quit l h = h

  perform-looping : (c : Call F) (l : Loop F) → l.looping ≡ true → (perform true c l).looping ≡ true
  unfolding perform queue_in_loop quit_loop
  perform-looping (queue none) l h = h
  perform-looping (queue (some f)) l h = ground (arith, h)
  perform-looping (run_on_quit f) l h = h
  perform-looping quit l h = h

  wake_up-IsInOrder :
      (b : Bool) (l : Loop F)
      → IsInOrder l
      → IsInOrder (wake_up b l) × ((wake_up b l).place ≡ l.place)
  wake_up-IsInOrder true l h = (h, refl)
  wake_up-IsInOrder false l h = (h, refl)

  pub perform-IsInOrder :
      (b : Bool) (c : Call F) (l : Loop F)
      → IsInOrder l
      → IsInOrder (perform b c l) × ((perform b c l).place ≡ l.place)
  unfolding perform queue_in_loop quit_loop
  perform-IsInOrder b (queue none) l h = (h, refl)
  perform-IsInOrder b (queue (some f)) l h =
      let longer = sym (append_assoc l.ran l.funcs (f ∷ [])) ∙ ap (λ fs. fs ++ (f ∷ [])) h in
      elim (Bool-cases (not b || not l.looping)) [
        | inl e ↦ rw e (wake_up-IsInOrder b _ longer)
        | inr e ↦ rw e (longer, refl)
      ]
  perform-IsInOrder b (run_on_quit f) l h = (h, refl)
  perform-IsInOrder true quit l h = (h, refl)
  perform-IsInOrder false quit l h = (h, refl)

  pub perform_all-IsInOrder :
      (cs : List (Call F)) (l : Loop F)
      → IsInOrder l
      → IsInOrder (perform_all cs l) × ((perform_all cs l).place ≡ l.place)
  unfolding perform_all
  perform_all-IsInOrder [] l h = (h, refl)
  perform_all-IsInOrder (c ∷ cs) l h =
      let (h₁, e₁) = perform-IsInOrder true c l h in
      let (h₂, e₂) = perform_all-IsInOrder cs (perform true c l) h₁ in (h₂, e₂ ∙ e₁)

  pub perform_all-Fits :
      (cs : List (Call F)) (l : Loop F) → Fits outside l → Fits outside (perform_all cs l)
  unfolding perform_all
  perform_all-Fits [] l h = h
  perform_all-Fits (c ∷ cs) l h = perform_all-Fits cs (perform true c l) (inside-Fits c l h)

  pub perform_all-looping :
      (cs : List (Call F)) (l : Loop F) → l.looping ≡ true → (perform_all cs l).looping ≡ true
  unfolding perform_all
  perform_all-looping [] l h = h
  perform_all-looping (c ∷ cs) l h =
      perform_all-looping cs (perform true c l) (perform-looping c l h)
