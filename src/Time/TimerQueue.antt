-- ===== src/Time/TimerQueue.antt =====
-- time/TimerQueue.cpp. `std::priority_queue` is the list of its timers by time; of timers with one
-- time, which it may hand out in any order, the one put in first comes first. `std::unordered_set`
-- is a list. Everything here runs in the loop's thread.
pub mod Order
pub mod Cancel
pub mod Reset
pub mod Due
pub mod Waiting
use mysql_connect_pool.Prelude.{
  ℕ, ◌≡◌, inl, inr, Bool-cases, Bool, true, false, not, ◌&&◌, ◌||◌, Option, none, some, List, [],
  ◌∷◌, ◌++◌, leb, ltb, ◌==◌, if◌then◌else◌,
}
use mysql_connect_pool.Time.Timer.{Timer, is_repeat, restart, earlier}

pub record TimerQueue (F : Type 0) : Type 0 where
  pub timers : List (Timer F)
  pub timer_id_set : List ℕ
  -- the time point of the last `resetTimerfd`
  pub armed : Option ℕ
  pub calling_expired_timers : Bool

-- What a callback asks of the queue: `addTimer`, whose timer is made already, and `invalidateTimer`.
pub data Command (F : Type 0) : Type 0 where
  add : Timer F → Command F
  cancel : ℕ → Command F

-- What a callback does: what it asks of the queue, and whether it throws after that.
pub record Effect (F : Type 0) : Type 0 where
  pub commands : List (Command F)
  pub throws : Bool

unfoldable pub contains : ℕ → List ℕ → Bool
contains i [] = false
contains i (j ∷ js) = i == j || contains i js

unfoldable pub insert_id : ℕ → List ℕ → List ℕ
unfolding contains
insert_id i js = if contains i js then js else i ∷ js

unfoldable pub erase_id : ℕ → List ℕ → List ℕ
erase_id i [] = []
erase_id i (j ∷ js) = if i == j then erase_id i js else j ∷ erase_id i js

-- How the loop over the expired timers ends: with the ids of the timers that it ran, or after those
-- by an exception, which the last of them threw or a timer with no callback.
pub data Calls (F : Type 0) : Type 0 where
  finished threw : List ℕ → TimerQueue F → Calls F

module _ {F : Type 0} where
  -- `timers_.push`
  unfoldable pub push : Timer F → List (Timer F) → List (Timer F)
  unfolding earlier
  push t [] = t ∷ []
  push t (u ∷ us) = if earlier t u then t ∷ (u ∷ us) else u ∷ push t us

  -- `timers_.empty() || *timePtr < *timers_.top()`
  unfoldable pub is_earliest : Timer F → List (Timer F) → Bool
  unfolding earlier
  is_earliest t [] = true
  is_earliest t (u ∷ us) = earlier t u

  -- `insert`: whether the earliest time changed, and the queue.
  unfoldable pub insert : Timer F → TimerQueue F → Bool × TimerQueue F
  unfolding push is_earliest
  insert t q = (is_earliest t q.timers, record q { timers = push t q.timers })

  unfoldable pub reset_timerfd : ℕ → TimerQueue F → TimerQueue F
  reset_timerfd when q = record q { armed = some when }

  unfoldable pub add_timer_in_loop : Timer F → TimerQueue F → TimerQueue F
  unfolding insert insert_id reset_timerfd
  add_timer_in_loop t q =
      let (changed, r) = insert t (record q { timer_id_set = insert_id t.id q.timer_id_set }) in
      if changed then reset_timerfd t.when r else r

  unfoldable pub invalidate_timer : ℕ → TimerQueue F → TimerQueue F
  unfolding erase_id
  invalidate_timer i q = record q { timer_id_set = erase_id i q.timer_id_set }

  unfoldable pub execute : Command F → TimerQueue F → TimerQueue F
  unfolding add_timer_in_loop invalidate_timer
  execute (add t) q = add_timer_in_loop t q
  execute (cancel i) q = invalidate_timer i q

  unfoldable pub execute_all : List (Command F) → TimerQueue F → TimerQueue F
  unfolding execute
  execute_all [] q = q
  execute_all (c ∷ cs) q = execute_all cs (execute c q)

  -- `getExpired(now)`: the expired timers, and those that stay in the queue.
  unfoldable pub get_expired : ℕ → List (Timer F) → List (Timer F) × List (Timer F)
  get_expired now [] = ([], [])
  get_expired now (t ∷ ts) =
      let (expired, rest) = get_expired now ts in
      if leb t.when now then (t ∷ expired, rest) else ([], t ∷ ts)

  -- The loop of `reset(expired, now)`.
  unfoldable pub reset_each : List (Timer F) → ℕ → ℕ → TimerQueue F → TimerQueue F
  unfolding contains insert erase_id
  reset_each [] now clock q = q
  reset_each (t ∷ ts) now clock q = reset_each ts now clock (
      if contains t.id q.timer_id_set
      then (if is_repeat t
          then (insert (restart now clock t) q).1
          else record q { timer_id_set = erase_id t.id q.timer_id_set })
      else q)

  -- `if (!timers_.empty()) resetTimerfd(timerfd_, timers_.top()->when())`
  unfoldable pub arm_first : List (Timer F) → TimerQueue F → TimerQueue F
  unfolding reset_timerfd
  arm_first [] q = q
  arm_first (t ∷ ts) q = reset_timerfd t.when q

  unfoldable pub reset : List (Timer F) → ℕ → ℕ → TimerQueue F → TimerQueue F
  unfolding reset_each arm_first
  reset expired now clock q = let r = reset_each expired now clock q in arm_first r.timers r

  -- The loop of `handleRead` over the expired timers, `ran` so far. What a callback asks of the
  -- queue when it runs at the time `now` is an argument, `effects`.
  module _ (effects : ℕ → F → Effect F) where
    unfoldable pub call_each : List (Timer F) → ℕ → TimerQueue F → List ℕ → Calls F
    unfolding contains execute_all
    call_each [] now q ran = finished ran q
    call_each (t ∷ ts) now q ran =
        let passed = call_each ts now q ran in
        if contains t.id q.timer_id_set
        then (elim t.callback [
          | none ↦ threw ran q
          | some f ↦
              let r = execute_all (effects now f).commands q in
              let next = call_each ts now r (ran ++ (t.id ∷ [])) in
              if (effects now f).throws then threw (ran ++ (t.id ∷ [])) r else next
        ])
        else passed

    either_P {ℓ} :
        (P : Calls F → Type ℓ) {x y : Calls F} (b : Bool) → P x → P y → P (if b then x else y)
    either_P P true p q = p
    either_P P false p q = q

    -- The ways of one round.
    pub call_each-step {ℓ} :
        (P : Calls F → Type ℓ) (t : Timer F) (ts : List (Timer F)) (now : ℕ) (q : TimerQueue F)
        (ran : List ℕ)
        → (contains t.id q.timer_id_set ≡ false → P (call_each ts now q ran))
        → P (threw ran q)
        → ((f : F)
            → contains t.id q.timer_id_set ≡ true
            → P (call_each ts now (execute_all (effects now f).commands q) (ran ++ (t.id ∷ []))))
        → ((f : F)
            → contains t.id q.timer_id_set ≡ true
            → P (threw (ran ++ (t.id ∷ [])) (execute_all (effects now f).commands q)))
        → P (call_each (t ∷ ts) now q ran)
    unfolding call_each
    call_each-step P t ts now q ran passed threw_at called failed =
        elim (Bool-cases (contains t.id q.timer_id_set)) [
          | inl h ↦
              rw h
                (elim t.callback
                  as (λ o. P (elim o [
                    | none ↦ threw ran q
                    | some f ↦
                        if (effects now f).throws
                        then threw (ran ++ (t.id ∷ [])) (execute_all (effects now f).commands q)
                        else call_each ts now (execute_all (effects now f).commands q)
                            (ran ++ (t.id ∷ []))
                  ])) [
                    | none ↦ threw_at
                    | some f ↦ either_P P (effects now f).throws (failed f h) (called f h)
                  ])
          | inr h ↦ rw h (passed h)
        ]

    -- `handleRead`; `clock` is the time at which `restart` would read the clock.
    unfoldable pub handle_read : ℕ → ℕ → TimerQueue F → Calls F
    unfolding get_expired call_each reset
    handle_read now clock q =
        let (expired, rest) = get_expired now q.timers in
        elim (call_each expired now (record q { timers = rest; calling_expired_timers = true })
          []) [
            | finished ran r ↦
                finished ran (reset expired now clock (record r { calling_expired_timers = false }))
            | threw ran r ↦ threw ran r
          ]
