-- ===== src/Time/TimerQueue/Cancel.antt =====
-- A timer that was invalidated does not run again (time/TimerQueue.cpp).
use mysql_connect_pool.Prelude.{ℕ, ◌≡◌, ◌≢◌, refl, true, false, ◌||◌, List, [], ◌∷◌, ◌++◌, arith}
use mysql_connect_pool.Time.Timer.{Timer}
use mysql_connect_pool.Time.TimerQueue.{
  Effect, TimerQueue, Command, add, cancel, Calls, finished, threw, contains, insert_id, erase_id,
  insert, add_timer_in_loop, invalidate_timer, execute, execute_all, get_expired, reset_each,
  arm_first, reset, call_each, call_each-step, handle_read,
}

-- `i` is in no list that lacks it after `j` was put in or taken out, for another `j`.
contains-insert_id :
    (i j : ℕ) (js : List ℕ) → i ≢ j → contains i js ≡ false → contains i (insert_id j js) ≡ false
unfolding insert_id contains
contains-insert_id i j js n h = ground arith

contains-erase_id :
    (i j : ℕ) (js : List ℕ) → contains i js ≡ false → contains i (erase_id j js) ≡ false
unfolding contains erase_id
contains-erase_id i j [] h = refl
contains-erase_id i j (k ∷ ks) h = ground (arith, contains-erase_id i j ks)

pub contains-erase_id_self : (i : ℕ) (js : List ℕ) → contains i (erase_id i js) ≡ false
unfolding contains erase_id
contains-erase_id_self i [] = refl
contains-erase_id_self i (k ∷ ks) = ground (arith, contains-erase_id_self i ks)

pub contains-append_one :
    (i j : ℕ) (js : List ℕ) → i ≢ j → contains i js ≡ false → contains i (js ++ (j ∷ [])) ≡ false
unfolding contains
contains-append_one i j [] n h = ground arith
contains-append_one i j (k ∷ ks) n h = ground (arith, contains-append_one i j ks n)

pub contains-append :
    (i : ℕ) (js ks : List ℕ) → contains i (js ++ ks) ≡ (contains i js || contains i ks)
unfolding contains
contains-append i [] ks = refl
contains-append i (j ∷ js) ks = ground (arith, contains-append i js ks)

-- What happens to a queue: its descriptor fires, at the times that the two readings of the clock give,
-- or functions of the loop add and invalidate timers.
pub data Round (F : Type 0) : Type 0 where
  fires : ℕ → ℕ → Round F
  asks : List (Command F) → Round F

module _ {F : Type 0} where
  -- No timer of this id is added.
  abbrev pub AddsNo : ℕ → List (Command F) → Type 0
  AddsNo i [] = Unit
  AddsNo i (add t ∷ cs) = (i ≢ t.id) × AddsNo i cs
  AddsNo i (cancel j ∷ cs) = AddsNo i cs

  -- The id is not among the valid ones.
  abbrev pub IsInvalid : ℕ → TimerQueue F → Type 0
  IsInvalid i q = contains i q.timer_id_set ≡ false

  execute_all-IsInvalid :
      (i : ℕ) (cs : List (Command F)) (q : TimerQueue F)
      → AddsNo i cs
      → IsInvalid i q
      → IsInvalid i (execute_all cs q)
  unfolding execute_all execute add_timer_in_loop invalidate_timer insert
  execute_all-IsInvalid i [] q a h = h
  execute_all-IsInvalid i (add t ∷ cs) q a h =
      execute_all-IsInvalid i cs _ a.1
        (ground (arith, contains-insert_id i t.id q.timer_id_set a.0 h))
  execute_all-IsInvalid i (cancel j ∷ cs) q a h =
      execute_all-IsInvalid i cs _ a (contains-erase_id i j q.timer_id_set h)

  pub reset_each-IsInvalid :
      (i : ℕ) (ts : List (Timer F)) (now clock : ℕ) (q : TimerQueue F)
      → IsInvalid i q
      → IsInvalid i (reset_each ts now clock q)
  unfolding reset_each insert
  reset_each-IsInvalid i [] now clock q h = h
  reset_each-IsInvalid i (t ∷ ts) now clock q h =
      reset_each-IsInvalid i ts now clock _
        (ground (arith, contains-erase_id i t.id q.timer_id_set h))

  arm_first-IsInvalid :
      (i : ℕ) (ts : List (Timer F)) (q : TimerQueue F)
      → IsInvalid i q
      → IsInvalid i (arm_first ts q)
  unfolding arm_first
  arm_first-IsInvalid i [] q h = h
  arm_first-IsInvalid i (t ∷ ts) q h = h

  module _ (effects : ℕ → F → Effect F) where
    abbrev pub RanNo : ℕ → Calls F → Type 0
    RanNo i (finished ran q) = (contains i ran ≡ false) × IsInvalid i q
    RanNo i (threw ran q) = (contains i ran ≡ false) × IsInvalid i q

    call_each-RanNo :
        (i : ℕ)
        → ((now : ℕ) (f : F) → AddsNo i (effects now f).commands)
        → (ts : List (Timer F)) (now : ℕ) (q : TimerQueue F) (ran : List ℕ) → IsInvalid i q
        → contains i ran ≡ false
        → RanNo i (call_each effects ts now q ran)
    unfolding call_each
    call_each-RanNo i never [] now q ran h r = (r, h)
    call_each-RanNo i never (t ∷ ts) now q ran h r =
        call_each-step effects (RanNo i) t ts now q ran
          (λ _. call_each-RanNo i never ts now q ran h r) (r, h)
          (λ f valid.
            call_each-RanNo i never ts now (execute_all (effects now f).commands q)
              (ran ++ (t.id ∷ []))
              (execute_all-IsInvalid i (effects now f).commands q (never now f) h)
              (contains-append_one i t.id ran (λ e. cc (rw (← e) at valid)) r))
          (λ f valid. (
            contains-append_one i t.id ran (λ e. cc (rw (← e) at valid)) r,
            execute_all-IsInvalid i (effects now f).commands q (never now f) h,
          ))

    handle_read-RanNo :
        (i : ℕ)
        → ((now : ℕ) (f : F) → AddsNo i (effects now f).commands)
        → (now clock : ℕ) (q : TimerQueue F) → IsInvalid i q
        → RanNo i (handle_read effects now clock q)
    unfolding handle_read reset
    handle_read-RanNo i never now clock q h =
        let (expired, rest) = get_expired now q.timers in
        go
          (call_each effects expired now (record q { timers = rest; calling_expired_timers = true })
            [])
          (call_each-RanNo i never expired now
            (record q { timers = rest; calling_expired_timers = true }) [] h
            (unfold contains in refl))
      where
        go :
            (o : Calls F)
            → RanNo i o
            → RanNo i (elim o [
              | finished ran r ↦ finished ran (
                  reset
                    (get_expired now q.timers).0
                    now
                    clock
                    (record r { calling_expired_timers = false }))
              | threw ran r ↦ threw ran r
            ])
        go (finished ran r) k =
            let r' = record r { calling_expired_timers = false } in
            let u = reset_each (get_expired now q.timers).0 now clock r' in
            (
              k.0,
              arm_first-IsInvalid i u.timers u
                  (reset_each-IsInvalid i (get_expired now q.timers).0 now clock r' k.1),
            )
        go (threw ran r) k = k

    -- The ids of the timers that run, in order.
    unfoldable pub run_rounds : List (Round F) → TimerQueue F → List ℕ
    run_rounds [] q = []
    run_rounds (asks cs ∷ rs) q = run_rounds rs (execute_all cs q)
    run_rounds (fires now clock ∷ rs) q = elim (handle_read effects now clock q) [
      | finished ran r ↦ ran ++ run_rounds rs r
      | threw ran r ↦ ran
    ]

    abbrev pub AllAddNo : ℕ → List (Round F) → Type 0
    AllAddNo i [] = Unit
    AllAddNo i (asks cs ∷ rs) = AddsNo i cs × AllAddNo i rs
    AllAddNo i (fires now clock ∷ rs) = AllAddNo i rs

    invalid_rounds :
        (i : ℕ)
        → ((now : ℕ) (f : F) → AddsNo i (effects now f).commands)
        → (rs : List (Round F)) (q : TimerQueue F) → AllAddNo i rs
        → IsInvalid i q
        → contains i (run_rounds rs q) ≡ false
    unfolding run_rounds
    invalid_rounds i never [] q a h = unfold contains in refl
    invalid_rounds i never (asks cs ∷ rs) q a h =
        invalid_rounds i never rs (execute_all cs q) a.1 (execute_all-IsInvalid i cs q a.0 h)
    invalid_rounds i never (fires now clock ∷ rs) q a h =
        go (handle_read effects now clock q) (handle_read-RanNo i never now clock q h)
          (λ r k. invalid_rounds i never rs r a k)
      where
        go :
            (o : Calls F)
            → RanNo i o
            → ((r : TimerQueue F) → IsInvalid i r → contains i (run_rounds rs r) ≡ false)
            → contains i (elim o [ finished ran r ↦ ran ++ run_rounds rs r | threw ran r ↦ ran ])
              ≡ false
        go (finished ran r) k ih = ground (arith, contains-append i ran (run_rounds rs r), ih r k.1)
        go (threw ran r) k ih = k.0

    -- A timer that was invalidated never runs again, however often the descriptor fires, if no timer
    -- of its id is added later, by a callback or by others; also if its time has already come.
    pub run_rounds-invalidate_timer :
        (i : ℕ) (rs : List (Round F)) (q : TimerQueue F)
        → ((now : ℕ) (f : F) → AddsNo i (effects now f).commands)
        → AllAddNo i rs
        → contains i (run_rounds rs (invalidate_timer i q)) ≡ false
    run_rounds-invalidate_timer i rs q never a =
        invalid_rounds i never rs (invalidate_timer i q) a
          (unfold invalidate_timer in contains-erase_id_self i q.timer_id_set)
