-- ===== src/Event/Dispatcher/Calls.antt =====
-- Which callbacks one event of a descriptor calls (event/EventDispatcher.cpp).
use mysql_connect_pool.Prelude.{
  ◌≡◌, refl, Bool, true, false, not, ◌&&◌, ◌||◌, Option, none, some, List, [], ◌∷◌, ◌++◌, arith,
  if◌then◌else◌, ◌⊎◌, inl, inr,
}
use mysql_connect_pool.Event.Mask.{is_none_event}
use mysql_connect_pool.Event.Dispatcher.{
  Dispatcher, call_if_set, read_and_write, handle_event_safely, handle_event,
}

or-false : (a b : Bool) → (a || b) ≡ false → (a ≡ false) × (b ≡ false)
or-false a b = ground arith

or-true : (a b : Bool) → (a || b) ≡ true → (a ≡ true) ⊎ (b ≡ true)
or-true a b = ground arith

-- A hang-up with nothing to read, or not.
closes : (a b : Bool) → (a && not b) ≡ true → (a ≡ true) × (b ≡ false)
closes a b = ground arith

stays : (a b : Bool) → (a && not b) ≡ false → (a ≡ false) ⊎ (b ≡ true)
stays a b = ground arith

true-ne-false : (b : Bool) → b ≡ false → ¬ (b ≡ true)
true-ne-false b e f = cc

module _ {F : Type 0} where
  -- The event is for a dispatcher that waits for some event, and whose owner, if it is tied to one,
  -- still lives.
  abbrev pub IsDelivered : Dispatcher F → Type 0
  IsDelivered d = (is_none_event d.events ≡ false) × ((d.tied ≡ false) ⊎ (d.tie_lives ≡ true))

  abbrev pub HasInput : Dispatcher F → Type 0
  HasInput d =
      (d.real_events.pollin ≡ true)
      ⊎ ((d.real_events.pollpri ≡ true) ⊎ (d.real_events.pollrdhup ≡ true))

  -- What a callback is called for: once if it is set and `P` holds, and else not.
  pub data CallsFor (P : Type 0) (callback : Option F) : List F → Type 0 where
    called : (f : F) → P → callback ≡ some f → CallsFor P callback (f ∷ [])
    unset : callback ≡ none → CallsFor P callback []
    other : ¬ P → CallsFor P callback []

  -- No callback runs for a dispatcher that waits for no event, nor once its owner is gone.
  -- Otherwise: a general callback runs alone; with none set, a hang-up with nothing left to read
  -- runs the close callback alone; else an invalid descriptor or an error runs the error callback
  -- alone; else the read callback, for input, urgent input or a half close, and behind it the
  -- write callback, for room to write. Callbacks that are not set are left out.
  pub data Dispatches (d : Dispatcher F) : List F → Type 0 where
    dropped :
        (is_none_event d.events ≡ true) ⊎ ((d.tied ≡ true) × (d.tie_lives ≡ false))
        → Dispatches d []
    general : (f : F) → IsDelivered d → d.event_callback ≡ some f → Dispatches d (f ∷ [])
    closing :
        IsDelivered d
        → d.event_callback ≡ none
        → d.real_events.pollhup ≡ true
        → d.real_events.pollin ≡ false
        → {xs : List F} → CallsFor Unit d.close_callback xs
        → Dispatches d xs
    failing :
        IsDelivered d
        → d.event_callback ≡ none
        → (d.real_events.pollhup ≡ false) ⊎ (d.real_events.pollin ≡ true)
        → (d.real_events.pollnval ≡ true) ⊎ (d.real_events.pollerr ≡ true)
        → {xs : List F} → CallsFor Unit d.error_callback xs
        → Dispatches d xs
    io :
        IsDelivered d
        → d.event_callback ≡ none
        → (d.real_events.pollhup ≡ false) ⊎ (d.real_events.pollin ≡ true)
        → d.real_events.pollnval ≡ false
        → d.real_events.pollerr ≡ false
        → {xs ys : List F} → CallsFor (HasInput d) d.read_callback xs
        → CallsFor (d.real_events.pollout ≡ true) d.write_callback ys
        → Dispatches d (xs ++ ys)

  -- A test, by its two outcomes.
  if_cases :
      (P : List F → Type 0)
      → {x y : List F} → (b : Bool) → (b ≡ true → P x)
      → (b ≡ false → P y)
      → P (if b then x else y)
  if_cases P true f g = f refl
  if_cases P false f g = g refl

  call_if_set-CallsFor : (P : Type 0) (o : Option F) → P → CallsFor P o (call_if_set o)
  call_if_set-CallsFor P none p = unset refl
  call_if_set-CallsFor P (some f) p = called f p refl

  tested-CallsFor :
      (P : Type 0) (o : Option F) (b : Bool)
      → (b ≡ true → P)
      → (b ≡ false → ¬ P)
      → CallsFor P o (if b then call_if_set o else [])
  tested-CallsFor P o true y n = call_if_set-CallsFor P o (y refl)
  tested-CallsFor P o false y n = other (n refl)

  HasInput-true :
      (d : Dispatcher F)
      → (d.real_events.pollin || d.real_events.pollpri || d.real_events.pollrdhup) ≡ true
      → HasInput d
  HasInput-true d h = ground (arith, h)

  HasInput-false :
      (d : Dispatcher F)
      → (d.real_events.pollin || d.real_events.pollpri || d.real_events.pollrdhup) ≡ false
      → ¬ HasInput d
  HasInput-false d h (inl p) = ground (arith, h, p)
  HasInput-false d h (inr (inl p)) = ground (arith, h, p)
  HasInput-false d h (inr (inr p)) = ground (arith, h, p)

  read_and_write-Dispatches :
      (d : Dispatcher F)
      → ((xs ys : List F)
          → CallsFor (HasInput d) d.read_callback xs
          → CallsFor (d.real_events.pollout ≡ true) d.write_callback ys
          → Dispatches d (xs ++ ys))
      → Dispatches d (read_and_write d)
  unfolding read_and_write
  read_and_write-Dispatches d f =
      f _ _
        (tested-CallsFor (HasInput d) d.read_callback
          (d.real_events.pollin || d.real_events.pollpri || d.real_events.pollrdhup)
          (HasInput-true d) (HasInput-false d))
        (tested-CallsFor (d.real_events.pollout ≡ true) d.write_callback d.real_events.pollout
          (λ h. h) (true-ne-false d.real_events.pollout))

  handle_event_safely-Dispatches :
      (d : Dispatcher F) → IsDelivered d → Dispatches d (handle_event_safely d)
  unfolding handle_event_safely
  handle_event_safely-Dispatches d v = go d.event_callback refl
    where
      ladder :
          d.event_callback ≡ none
          → Dispatches d (
              if d.real_events.pollhup && not d.real_events.pollin
              then call_if_set d.close_callback
              else if d.real_events.pollnval || d.real_events.pollerr
              then call_if_set d.error_callback
              else read_and_write d)
      ladder e =
          if_cases (Dispatches d) (d.real_events.pollhup && not d.real_events.pollin)
            (λ h.
              let (u, i) = closes d.real_events.pollhup d.real_events.pollin h in
              closing v e u i (call_if_set-CallsFor Unit d.close_callback tt))
            (λ h.
              let open_end = stays d.real_events.pollhup d.real_events.pollin h in
              if_cases (Dispatches d) (d.real_events.pollnval || d.real_events.pollerr)
                (λ w.
                  failing v e open_end (or-true d.real_events.pollnval d.real_events.pollerr w)
                    (call_if_set-CallsFor Unit d.error_callback tt))
                (λ w.
                  let (n, r) = or-false d.real_events.pollnval d.real_events.pollerr w in
                  read_and_write-Dispatches d (λ xs ys. io v e open_end n r)))

      go :
          (o : Option F)
          → d.event_callback ≡ o
          → Dispatches d (elim o [
            | some f ↦ f ∷ []
            | none ↦
                if d.real_events.pollhup && not d.real_events.pollin
                then call_if_set d.close_callback
                else if d.real_events.pollnval || d.real_events.pollerr
                then call_if_set d.error_callback
                else read_and_write d
          ])
      go (some f) e = general f v e
      go none e = ladder e

  -- `handleEvent` makes just the calls that `Dispatches` allows: none for a dispatcher that waits for
  -- no event or whose owner is gone, and otherwise those of the one case that applies.
  pub handle_event-Dispatches : (d : Dispatcher F) → Dispatches d (handle_event d)
  unfolding handle_event
  handle_event-Dispatches d =
      if_cases (Dispatches d) (is_none_event d.events) (λ n. dropped (inl n))
        (λ n.
          if_cases (Dispatches d) d.tied
            (λ t.
              if_cases (Dispatches d) d.tie_lives (λ a. handle_event_safely-Dispatches d (n, inr a))
                (λ a. dropped (inr (t, a))))
            (λ t. handle_event_safely-Dispatches d (n, inl t)))
