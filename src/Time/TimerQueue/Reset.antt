-- ===== src/Time/TimerQueue/Reset.antt =====
-- What `reset` makes of the timers that have run (time/TimerQueue.cpp).
use mysql_connect_pool.Prelude.{
  ℕ, ◌≡◌, refl, true, false, List, [], ◌∷◌, arith, ◌⊎◌, inl, inr, Bool-cases,
}
use mysql_connect_pool.Time.Timer.{Timer, is_repeat, restart}
use mysql_connect_pool.Time.TimerQueue.{TimerQueue, contains, insert, push, reset_each}
use mysql_connect_pool.Time.TimerQueue.Cancel.{
  IsInvalid, contains-erase_id_self, reset_each-IsInvalid,
}

module _ {F : Type 0} where
  abbrev pub IsIn : Timer F → List (Timer F) → Type 0
  IsIn t [] = ⊥
  IsIn t (u ∷ us) = (t ≡ u) ⊎ IsIn t us

  abbrev pub AllReset : ℕ → ℕ → TimerQueue F → List (Timer F) → Type 0
  AllReset now clock q [] = Unit
  AllReset now clock q (t ∷ ts) =
      ((is_repeat t ≡ true) ⊎ IsInvalid t.id q)
      × ((is_repeat t ≡ false) ⊎ (IsInvalid t.id q ⊎ IsIn (restart now clock t) q.timers))
      × AllReset now clock q ts

  push-IsIn : (t : Timer F) (us : List (Timer F)) → IsIn t (push t us)
  unfolding push
  push-IsIn t [] = inl refl
  push-IsIn t (u ∷ us) = ground (arith, push-IsIn t us)

  push-IsIn_other : (t u : Timer F) (us : List (Timer F)) → IsIn t us → IsIn t (push u us)
  unfolding push
  push-IsIn_other t u [] h = inr h
  push-IsIn_other t u (v ∷ us) h = ground (arith, push-IsIn_other t u us)

  reset_each-IsIn :
      (t : Timer F) (ts : List (Timer F)) (now clock : ℕ) (q : TimerQueue F)
      → IsIn t q.timers
      → IsIn t (reset_each ts now clock q).timers
  unfolding reset_each insert
  reset_each-IsIn t [] now clock q h = h
  reset_each-IsIn t (u ∷ ts) now clock q h =
      reset_each-IsIn t ts now clock _
        (ground (arith, push-IsIn_other t (restart now clock u) q.timers h))

  pub reset_each-head :
      (t : Timer F) (ts : List (Timer F)) (now clock : ℕ) (q : TimerQueue F)
      → is_repeat t ≡ true
      → contains t.id q.timer_id_set ≡ true
      → IsIn (restart now clock t) (reset_each (t ∷ ts) now clock q).timers
  unfolding reset_each insert
  reset_each-head t ts now clock q again valid =
      reset_each-IsIn (restart now clock t) ts now clock _
        (ground (arith, push-IsIn (restart now clock t) q.timers))

  -- After the loop of `reset` the expired timers that do not repeat are not valid, and each that
  -- repeats is either no longer valid or in the queue with its next time.
  pub reset_each-AllReset :
      (ts : List (Timer F)) (now clock : ℕ) (q : TimerQueue F)
      → AllReset now clock (reset_each ts now clock q) ts
  unfolding reset_each insert
  reset_each-AllReset [] now clock q = tt
  reset_each-AllReset (t ∷ ts) now clock q = (
    elim (Bool-cases (is_repeat t)) [
      | inl again ↦ inl again
      | inr once ↦ inr (
          reset_each-IsInvalid t.id ts now clock _
            (ground (arith, contains-erase_id_self t.id q.timer_id_set)))
    ],
    elim (Bool-cases (is_repeat t)) [
      | inr once ↦ inl once
      | inl again ↦ elim (Bool-cases (contains t.id q.timer_id_set)) [
        | inl valid ↦ inr (inr (reset_each-head t ts now clock q again valid))
        | inr gone ↦ inr (inl (reset_each-IsInvalid t.id ts now clock _ (ground arith)))
      ]
    ],
    reset_each-AllReset ts now clock _,
  )
