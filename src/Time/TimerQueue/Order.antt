-- ===== src/Time/TimerQueue/Order.antt =====
-- The queue is ordered by time, and the timer descriptor is set to the first time in it.
use mysql_connect_pool.Prelude.{
  ℕ, suc, ◌≤◌, ◌≡◌, refl, true, false, Option, some, List, [], ◌∷◌, ◌++◌, arith, if◌then◌else◌,
}
use mysql_connect_pool.Time.Timer.{Timer, restart}
use mysql_connect_pool.Time.TimerQueue.{
  Effect, TimerQueue, Command, add, cancel, Calls, finished, threw, push, is_earliest, insert,
  add_timer_in_loop, invalidate_timer, execute, execute_all, get_expired, reset_each, arm_first,
  reset, call_each, call_each-step, handle_read,
}

module _ {F : Type 0} where
  abbrev pub AtLeast : ℕ → List (Timer F) → Type 0
  AtLeast n [] = Unit
  AtLeast n (t ∷ ts) = (n ≤ t.when) × AtLeast n ts

  abbrev pub IsSorted : List (Timer F) → Type 0
  IsSorted [] = Unit
  IsSorted (t ∷ ts) = AtLeast t.when ts × IsSorted ts

  abbrev pub IsArmed : List (Timer F) → Option ℕ → Type 0
  IsArmed [] armed = Unit
  IsArmed (t ∷ ts) armed = armed ≡ some t.when

  pub record IsReady (q : TimerQueue F) : Type 0 where
    pub sorted : IsSorted q.timers
    pub armed_first : IsArmed q.timers q.armed

  abbrev pub AllExpired : ℕ → List (Timer F) → Type 0
  AllExpired now [] = Unit
  AllExpired now (t ∷ ts) = (t.when ≤ now) × AllExpired now ts

  AtLeast-mono : (m n : ℕ) (ts : List (Timer F)) → m ≤ n → AtLeast n ts → AtLeast m ts
  AtLeast-mono m n [] h a = tt
  AtLeast-mono m n (t ∷ ts) h a = (omega arith, AtLeast-mono m n ts h a.1)

  push-AtLeast :
      (n : ℕ) (t : Timer F) (ts : List (Timer F))
      → n ≤ t.when
      → AtLeast n ts
      → AtLeast n (push t ts)
  unfolding push
  push-AtLeast n t [] h a = (h, tt)
  push-AtLeast n t (u ∷ us) h a = ground (arith, push-AtLeast n t us h a.1)

  push-IsSorted : (t : Timer F) (ts : List (Timer F)) → IsSorted ts → IsSorted (push t ts)
  unfolding push
  push-IsSorted t [] s = (tt, tt)
  push-IsSorted t (u ∷ us) s =
      ground
        (arith, push-IsSorted t us s.1, push-AtLeast u.when t us, AtLeast-mono t.when u.when us)

  -- On a queue in order, `getExpired` takes just the timers whose time has come: what it takes and
  -- what it leaves make up the queue, in its order; each timer taken is due, and each left is not.
  get_expired_lem :
      (now : ℕ) (ts : List (Timer F))
      → IsSorted ts
      → let (expired, rest) = get_expired now ts in
        (expired ++ rest ≡ ts) × AllExpired now expired × AtLeast (suc now) rest × IsSorted rest
  unfolding get_expired
  get_expired_lem now [] s = (refl, tt, tt, tt)
  get_expired_lem now (t ∷ ts) s =
      ground (arith, get_expired_lem now ts s.1, AtLeast-mono (suc now) t.when ts)

  push-IsArmed :
      (t : Timer F) (ts : List (Timer F)) (armed : Option ℕ)
      → IsArmed ts armed
      → IsArmed (push t ts) (if is_earliest t ts then some t.when else armed)
  unfolding push is_earliest
  push-IsArmed t [] armed a = refl
  push-IsArmed t (u ∷ us) armed a = ground arith

  timers-add : (t : Timer F) (q : TimerQueue F) → (add_timer_in_loop t q).timers ≡ push t q.timers
  unfolding add_timer_in_loop
  timers-add t q = ground arith

  armed-add :
      (t : Timer F) (q : TimerQueue F)
      → (add_timer_in_loop t q).armed ≡ (if is_earliest t q.timers then some t.when else q.armed)
  unfolding add_timer_in_loop
  armed-add t q = ground arith

  add_timer_in_loop-IsReady :
      (t : Timer F) (q : TimerQueue F) → IsReady q → IsReady (add_timer_in_loop t q)
  add_timer_in_loop-IsReady t q v = record {
    sorted = rw (timers-add t q) (push-IsSorted t q.timers v.sorted);
    armed_first =
        rw (timers-add t q, armed-add t q) (push-IsArmed t q.timers q.armed v.armed_first);
  }

  -- Adding a timer and invalidating one leave the queue in order, and the descriptor set to its first
  -- time.
  pub execute-IsReady : (c : Command F) (q : TimerQueue F) → IsReady q → IsReady (execute c q)
  unfolding execute invalidate_timer
  execute-IsReady (add t) q v = add_timer_in_loop-IsReady t q v
  execute-IsReady (cancel i) q v = record { sorted = v.sorted; armed_first = v.armed_first }

  pub execute_all-IsSorted :
      (cs : List (Command F)) (q : TimerQueue F)
      → IsSorted q.timers
      → IsSorted (execute_all cs q).timers
  unfolding execute_all execute invalidate_timer
  execute_all-IsSorted [] q s = s
  execute_all-IsSorted (add t ∷ cs) q s =
      execute_all-IsSorted cs (add_timer_in_loop t q)
        (rw (timers-add t q) (push-IsSorted t q.timers s))
  execute_all-IsSorted (cancel i ∷ cs) q s = execute_all-IsSorted cs (invalidate_timer i q) s

  reset_each-IsSorted :
      (ts : List (Timer F)) (now clock : ℕ) (q : TimerQueue F)
      → IsSorted q.timers
      → IsSorted (reset_each ts now clock q).timers
  unfolding reset_each insert
  reset_each-IsSorted [] now clock q s = s
  reset_each-IsSorted (t ∷ ts) now clock q s =
      reset_each-IsSorted ts now clock _
        (ground (arith, push-IsSorted (restart now clock t) q.timers s))

  pub arm_first-IsReady :
      (q : TimerQueue F) (ts : List (Timer F))
      → ts ≡ q.timers
      → IsSorted q.timers
      → IsReady (arm_first ts q)
  unfolding arm_first
  arm_first-IsReady q [] e s = record { sorted = s; armed_first = rw (← e) tt }
  arm_first-IsReady q (t ∷ ts) e s = record { sorted = s; armed_first = rw (← e) refl }

  module _ (effects : ℕ → F → Effect F) where
    abbrev pub Finishes : (TimerQueue F → Type 0) → Calls F → Type 0
    Finishes P (finished ran q) = P q
    Finishes P (threw ran q) = Unit

    call_each-IsSorted :
        (ts : List (Timer F)) (now : ℕ) (q : TimerQueue F) (ran : List ℕ)
        → IsSorted q.timers
        → Finishes (λ r. IsSorted r.timers) (call_each effects ts now q ran)
    unfolding call_each
    call_each-IsSorted [] now q ran s = s
    call_each-IsSorted (t ∷ ts) now q ran s =
        call_each-step effects (Finishes (λ r. IsSorted r.timers)) t ts now q ran
          (λ _. call_each-IsSorted ts now q ran s) tt
          (λ f _.
            call_each-IsSorted ts now (execute_all (effects now f).commands q) (ran ++ (t.id ∷ []))
              (execute_all-IsSorted (effects now f).commands q s))
          (λ f _. tt)

    -- Whatever the callbacks do, once `handleRead` returns, the queue is in order and the descriptor is
    -- set to its first time, if the queue was in order before.
    pub handle_read-IsReady :
        (now clock : ℕ) (q : TimerQueue F)
        → IsSorted q.timers
        → Finishes IsReady (handle_read effects now clock q)
    unfolding handle_read reset
    handle_read-IsReady now clock q s =
        let (expired, rest) = get_expired now q.timers in
        go
          (call_each effects expired now (record q { timers = rest; calling_expired_timers = true })
            [])
          (call_each-IsSorted expired now
            (record q { timers = rest; calling_expired_timers = true }) []
            (get_expired_lem now q.timers s).3)
      where
        go :
            (o : Calls F)
            → Finishes (λ r. IsSorted r.timers) o
            → Finishes IsReady (elim o [
              | finished ran r ↦ finished ran (
                  reset
                    (get_expired now q.timers).0
                    now
                    clock
                    (record r { calling_expired_timers = false }))
              | threw ran r ↦ threw ran r
            ])
        go (finished ran r) k =
            let r' = record r { calling_expired_timers = false } in
            let u = reset_each (get_expired now q.timers).0 now clock r' in
            arm_first-IsReady u u.timers refl
              (reset_each-IsSorted (get_expired now q.timers).0 now clock r' k)
        go (threw ran r) k = tt
