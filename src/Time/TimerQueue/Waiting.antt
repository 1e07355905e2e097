-- ===== src/Time/TimerQueue/Waiting.antt =====
-- A timer waits for its time, and runs at the first firing of the timerfd from then on
-- (time/TimerQueue.cpp).
use mysql_connect_pool.Prelude.{
  ℕ, ◌≤◌, ◌<◌, ◌≡◌, ◌≢◌, refl, true, false, none, List, [], ◌∷◌, ◌++◌, leb, if◌then◌else◌, arith,
  ◌⊎◌, inl, inr, Bool-cases, Option-cases,
}
use mysql_connect_pool.Time.Timer.{Timer, is_repeat, restart}
use mysql_connect_pool.Time.TimerQueue.{
  TimerQueue, Command, Effect, add, cancel, Calls, finished, threw, contains, insert_id, erase_id,
  push, insert, add_timer_in_loop, invalidate_timer, execute, execute_all, get_expired, reset_each,
  arm_first, reset, call_each, handle_read,
}
use mysql_connect_pool.Time.TimerQueue.Order.{
  IsSorted, IsReady, Finishes, execute_all-IsSorted, handle_read-IsReady,
}
use mysql_connect_pool.Time.TimerQueue.Cancel.{
  Round, asks, fires, run_rounds, contains-append_one, contains-append,
}
use mysql_connect_pool.Time.TimerQueue.Due.{
  HasCallbacks, has_id, has_due, KeepsId, contains-insert_id_kept, contains-erase_id_kept,
  get_expired-HasCallbacks, handle_read-RanIt,
}

contains-insert_id_self : (i : ℕ) (js : List ℕ) → contains i (insert_id i js) ≡ true
unfolding insert_id contains
contains-insert_id_self i js = ground arith

module _ {F : Type 0} where
  push-has_due :
      (t : Timer F) (now : ℕ) (ts : List (Timer F))
      → t.when ≤ now
      → has_due t.id now (push t ts) ≡ true
  unfolding push
  push-has_due t now [] h = ground arith
  push-has_due t now (u ∷ us) h = ground (arith, push-has_due t now us h)

  push-HasCallbacks :
      (t : Timer F) (ts : List (Timer F))
      → t.callback ≢ none
      → HasCallbacks ts
      → HasCallbacks (push t ts)
  unfolding push
  push-HasCallbacks t [] c h = (c, tt)
  push-HasCallbacks t (u ∷ us) c h = ground (arith, c, h, push-HasCallbacks t us c h.1)

  timers-added :
      (t : Timer F) (q : TimerQueue F)
      → ((add_timer_in_loop t q).timers ≡ push t q.timers)
        × ((add_timer_in_loop t q).timer_id_set ≡ insert_id t.id q.timer_id_set)
  unfolding add_timer_in_loop insert
  timers-added t q = ground arith

  -- The timers of this id have this time or a later one.
  abbrev pub AllFrom : ℕ → ℕ → List (Timer F) → Type 0
  AllFrom i w [] = Unit
  AllFrom i w (t ∷ ts) = ((i ≢ t.id) ⊎ (w ≤ t.when)) × AllFrom i w ts

  pub record IsWaitingIn (i w : ℕ) (ts : List (Timer F)) (ids : List ℕ) : Type 0 where
    pub callbacks : HasCallbacks ts
    pub there : has_due i w ts ≡ true
    pub not_before : AllFrom i w ts
    pub valid : contains i ids ≡ true

  -- A timer of this id and this time is in the queue and valid, and none of its id has an earlier one.
  abbrev pub IsWaiting : ℕ → ℕ → TimerQueue F → Type 0
  IsWaiting i w q = IsWaitingIn i w q.timers q.timer_id_set

  -- What leaves the timer of this id alone, and adds only timers with callbacks.
  abbrev pub LeavesIt : ℕ → List (Command F) → Type 0
  LeavesIt i [] = Unit
  LeavesIt i (add t ∷ cs) = (i ≢ t.id) × (t.callback ≢ none) × LeavesIt i cs
  LeavesIt i (cancel j ∷ cs) = (i ≢ j) × LeavesIt i cs

  abbrev pub IsCalm : ℕ → Effect F → Type 0
  IsCalm i e = (e.throws ≡ false) × LeavesIt i e.commands

  -- Requests that leave the timer alone, and firings before the time.
  abbrev pub AllEarly : ℕ → ℕ → List (Round F) → Type 0
  AllEarly i w [] = Unit
  AllEarly i w (asks cs ∷ rs) = LeavesIt i cs × AllEarly i w rs
  AllEarly i w (fires now clock ∷ rs) = (now < w) × AllEarly i w rs

  LeavesIt-KeepsId : (i : ℕ) (cs : List (Command F)) → LeavesIt i cs → KeepsId i cs
  LeavesIt-KeepsId i [] h = tt
  LeavesIt-KeepsId i (add t ∷ cs) h = LeavesIt-KeepsId i cs h.2
  LeavesIt-KeepsId i (cancel j ∷ cs) h = (h.0, LeavesIt-KeepsId i cs h.1)

  has_id-not : (i : ℕ) (t : Timer F) (ts : List (Timer F)) → has_id i (t ∷ ts) ≡ false → i ≢ t.id
  has_id-not i t ts h = ground (arith, h)

  has_id-rest :
      (i : ℕ) (t : Timer F) (ts : List (Timer F)) → has_id i (t ∷ ts) ≡ false → has_id i ts ≡ false
  has_id-rest i t ts h = ground (arith, h)

  push-has_due_kept :
      (i w : ℕ) (t : Timer F) (ts : List (Timer F))
      → has_due i w ts ≡ true
      → has_due i w (push t ts) ≡ true
  unfolding push
  push-has_due_kept i w t [] h = cc
  push-has_due_kept i w t (u ∷ us) h = ground (arith, h, push-has_due_kept i w t us)

  push-AllFrom :
      (i w : ℕ) (t : Timer F) (ts : List (Timer F))
      → (i ≢ t.id) ⊎ (w ≤ t.when)
      → AllFrom i w ts
      → AllFrom i w (push t ts)
  unfolding push
  push-AllFrom i w t [] n h = (n, tt)
  push-AllFrom i w t (u ∷ us) n h = ground (arith, n, h, push-AllFrom i w t us n h.1)

  push-IsWaiting :
      (i w : ℕ) (t : Timer F) (ts : List (Timer F)) (ids js : List ℕ)
      → t.callback ≢ none
      → i ≢ t.id
      → IsWaitingIn i w ts ids
      → contains i js ≡ true
      → IsWaitingIn i w (push t ts) js
  push-IsWaiting i w t ts ids js c n v k = record {
    callbacks = push-HasCallbacks t ts c v.callbacks;
    there = push-has_due_kept i w t ts v.there;
    not_before = push-AllFrom i w t ts (inl n) v.not_before;
    valid = k;
  }

  execute_all-IsWaiting :
      (i w : ℕ) (cs : List (Command F)) (q : TimerQueue F)
      → LeavesIt i cs
      → IsWaiting i w q
      → IsWaiting i w (execute_all cs q)
  unfolding execute_all execute invalidate_timer
  execute_all-IsWaiting i w [] q h v = v
  execute_all-IsWaiting i w (add t ∷ cs) q h v = execute_all-IsWaiting i w cs _ h.2 (
      let (timers, ids) = timers-added t q in
      rw (timers, ids)
        (push-IsWaiting i w t q.timers q.timer_id_set _ h.1 h.0 v
          (contains-insert_id_kept i t.id q.timer_id_set v.valid)))
  execute_all-IsWaiting i w (cancel j ∷ cs) q h v = execute_all-IsWaiting i w cs _ h.1 (record {
    callbacks = v.callbacks;
    there = v.there;
    not_before = v.not_before;
    valid = contains-erase_id_kept i j q.timer_id_set h.0 v.valid;
  })

  restart-kept :
      (now clock : ℕ) (t : Timer F)
      → ((restart now clock t).callback ≡ t.callback) × ((restart now clock t).id ≡ t.id)
  unfolding restart
  restart-kept now clock t = ground arith

  reset_one-IsWaiting :
      (i w now clock : ℕ) (t : Timer F) (q : TimerQueue F)
      → i ≢ t.id
      → t.callback ≢ none
      → IsWaiting i w q
      → IsWaiting i w (
          if contains t.id q.timer_id_set
          then (if is_repeat t
              then (insert (restart now clock t) q).1
              else record q { timer_id_set = erase_id t.id q.timer_id_set })
          else q)
  unfolding insert
  reset_one-IsWaiting i w now clock t q n c v =
      let (same_callback, same_id) = restart-kept now clock t in
      elim (Bool-cases (contains t.id q.timer_id_set)) [
        | inr e ↦ rw e v
        | inl e ↦ elim (Bool-cases (is_repeat t)) [
          | inl r ↦
              rw (e, r)
                (push-IsWaiting i w (restart now clock t) q.timers q.timer_id_set q.timer_id_set
                  (rw same_callback c) (rw same_id n) v v.valid)
          | inr r ↦
              rw (e, r)
                (record {
                  callbacks = v.callbacks;
                  there = v.there;
                  not_before = v.not_before;
                  valid = contains-erase_id_kept i t.id q.timer_id_set n v.valid;
                })
        ]
      ]

  reset_each-IsWaiting :
      (i w now clock : ℕ) (ts : List (Timer F)) (q : TimerQueue F)
      → has_id i ts ≡ false
      → HasCallbacks ts
      → IsWaiting i w q
      → IsWaiting i w (reset_each ts now clock q)
  unfolding reset_each
  reset_each-IsWaiting i w now clock [] q n c v = v
  reset_each-IsWaiting i w now clock (t ∷ ts) q n c v =
      reset_each-IsWaiting i w now clock ts _ (has_id-rest i t ts n) c.1
        (reset_one-IsWaiting i w now clock t q (has_id-not i t ts n) c.0 v)

  arm_first-IsWaiting :
      (i w : ℕ) (ts : List (Timer F)) (q : TimerQueue F)
      → IsWaiting i w q
      → IsWaiting i w (arm_first ts q)
  unfolding arm_first
  arm_first-IsWaiting i w [] q v = v
  arm_first-IsWaiting i w (t ∷ ts) q v = v

  -- Before its time the timer is not taken out.
  get_expired-early :
      (i w now : ℕ) (ts : List (Timer F))
      → now < w
      → AllFrom i w ts
      → has_id i (get_expired now ts).0 ≡ false
  unfolding get_expired
  get_expired-early i w now [] h a = refl
  get_expired-early i w now (t ∷ ts) h a = ground (arith, h, a, get_expired-early i w now ts h a.1)

  get_expired-IsWaiting :
      (i w now : ℕ) (ts : List (Timer F)) (ids : List ℕ)
      → now < w
      → IsWaitingIn i w ts ids
      → IsWaitingIn i w (get_expired now ts).1 ids
  unfolding get_expired
  get_expired-IsWaiting i w now [] ids h v = v
  get_expired-IsWaiting i w now (t ∷ ts) ids h v = elim (Bool-cases (leb t.when now)) [
    | inr e ↦ rw e v
    | inl e ↦ rw e (
        get_expired-IsWaiting i w now ts ids h (record {
          callbacks = v.callbacks.1;
          there = ground (arith, v.there, v.not_before, e, h);
          not_before = v.not_before.1;
          valid = v.valid;
        }))
  ]

  has_due_mono :
      (i w now : ℕ) (ts : List (Timer F))
      → w ≤ now
      → has_due i w ts ≡ true
      → has_due i now ts ≡ true
  has_due_mono i w now [] h e = cc
  has_due_mono i w now (t ∷ ts) h e = ground (arith, h, e, has_due_mono i w now ts h)

  module _ (effects : ℕ → F → Effect F) where
    abbrev WaitsOn : ℕ → ℕ → Calls F → Type 0
    WaitsOn i w (finished ran q) = (contains i ran ≡ false) × IsWaiting i w q
    WaitsOn i w (threw ran q) = ⊥

    call_each-WaitsOn :
        (i w now : ℕ) (ts : List (Timer F)) (q : TimerQueue F) (ran : List ℕ)
        → ((now : ℕ) (f : F) → IsCalm i (effects now f))
        → has_id i ts ≡ false
        → HasCallbacks ts
        → IsWaiting i w q
        → contains i ran ≡ false
        → WaitsOn i w (call_each effects ts now q ran)
    unfolding call_each
    call_each-WaitsOn i w now [] q ran calm n c v k = (k, v)
    call_each-WaitsOn i w now (t ∷ ts) q ran calm n c v k =
        elim (Bool-cases (contains t.id q.timer_id_set)) [
          | inr e ↦ rw e (call_each-WaitsOn i w now ts q ran calm (has_id-rest i t ts n) c.1 v k)
          | inl e ↦ elim (Option-cases t.callback) [
            | inl g ↦ absurd (c.0 g)
            | inr (f, g) ↦
                rw (e, g, (calm now f).0)
                  (call_each-WaitsOn i w now ts _ (ran ++ (t.id ∷ [])) calm (has_id-rest i t ts n)
                    c.1 (execute_all-IsWaiting i w (effects now f).commands q (calm now f).1 v)
                    (contains-append_one i t.id ran (has_id-not i t ts n) k))
          ]
        ]

    handle_read-WaitsOn :
        (i w now clock : ℕ) (q : TimerQueue F)
        → ((now : ℕ) (f : F) → IsCalm i (effects now f))
        → now < w
        → IsWaiting i w q
        → WaitsOn i w (handle_read effects now clock q)
    unfolding handle_read reset
    handle_read-WaitsOn i w now clock q calm h v =
        let (expired, rest) = get_expired now q.timers in
        let started : TimerQueue F = record q { timers = rest; calling_expired_timers = true } in
        let others = get_expired-early i w now q.timers h v.not_before in
        let callbacks = get_expired-HasCallbacks now q.timers v.callbacks in
        go others callbacks (call_each effects expired now started []) (
          call_each-WaitsOn i w now expired started [] calm others callbacks
            (get_expired-IsWaiting i w now q.timers q.timer_id_set h v) (unfold contains in refl))
      where
        go :
            has_id i (get_expired now q.timers).0 ≡ false
            → HasCallbacks (get_expired now q.timers).0
            → (o : Calls F) → WaitsOn i w o
            → WaitsOn i w (elim o [
              | finished ran r ↦ finished ran (
                  reset
                    (get_expired now q.timers).0
                    now
                    clock
                    (record r { calling_expired_timers = false }))
              | threw ran r ↦ threw ran r
            ])
        go n c (finished ran r) k =
            let r' = record r { calling_expired_timers = false } in
            let expired = (get_expired now q.timers).0 in
            let u = reset_each expired now clock r' in
            (
              k.0,
              arm_first-IsWaiting i w u.timers u
                  (reset_each-IsWaiting i w now clock expired r' n c k.1),
            )
        go n c (threw ran r) k = k

    -- The timer does not run before its time, and does at a firing from then on.
    abbrev RunsAtLast : ℕ → ℕ → ℕ → List (Round F) → TimerQueue F → Type 0
    RunsAtLast i now clock rs q =
        (contains i (run_rounds effects rs q) ≡ false)
        × (contains i (run_rounds effects (rs ++ (fires now clock ∷ [])) q) ≡ true)

    runs_last :
        (i w now clock : ℕ) (q : TimerQueue F)
        → ((now : ℕ) (f : F) → IsCalm i (effects now f))
        → IsSorted q.timers
        → IsWaiting i w q
        → w ≤ now
        → contains i (run_rounds effects (fires now clock ∷ []) q) ≡ true
    unfolding run_rounds
    runs_last i w now clock q calm s v h =
        let (ran, r, e, done, _) =
          handle_read-RanIt effects i now clock q s v.callbacks
            (has_due_mono i w now q.timers h v.there) v.valid
            (λ n f. ((calm n f).0, LeavesIt-KeepsId i (effects n f).commands (calm n f).1)) in
        rw (run_rounds, e) (ground (arith, contains-append i ran [], done))

    pub run_rounds-IsWaiting :
        (i w now clock : ℕ)
        → ((now : ℕ) (f : F) → IsCalm i (effects now f))
        → (rs : List (Round F)) (q : TimerQueue F) → AllEarly i w rs
        → IsSorted q.timers
        → IsWaiting i w q
        → w ≤ now
        → RunsAtLast i now clock rs q
    unfolding run_rounds
    run_rounds-IsWaiting i w now clock calm [] q a s v h =
        (unfold contains in refl, runs_last i w now clock q calm s v h)
    run_rounds-IsWaiting i w now clock calm (asks cs ∷ rs) q a s v h =
        run_rounds-IsWaiting i w now clock calm rs (execute_all cs q) a.1
          (execute_all-IsSorted cs q s) (execute_all-IsWaiting i w cs q a.0 v) h
    run_rounds-IsWaiting i w now clock calm (fires early at ∷ rs) q a s v h =
        go (handle_read effects early at q) (handle_read-WaitsOn i w early at q calm a.0 v)
          (handle_read-IsReady effects early at q s)
          (λ r k t. run_rounds-IsWaiting i w now clock calm rs r a.1 t k h)
      where
        go :
            (o : Calls F)
            → WaitsOn i w o
            → Finishes effects IsReady o
            → ((r : TimerQueue F)
                → IsWaiting i w r
                → IsSorted r.timers
                → RunsAtLast i now clock rs r)
            → (contains i
                  (elim o [ finished ran r ↦ ran ++ run_rounds effects rs r | threw ran r ↦ ran ])
                ≡ false)
              × (contains i (elim o [
                | finished ran r ↦ ran ++ run_rounds effects (rs ++ (fires now clock ∷ [])) r
                | threw ran r ↦ ran
              ])
                  ≡ true)
        go (finished ran r) k f later =
            let (before, last) = later r k.1 f.sorted in
            (
              ground (arith, contains-append i ran (run_rounds effects rs r), before, k.0),
              ground (
                arith,
                contains-append i ran (run_rounds effects (rs ++ (fires now clock ∷ [])) r),
                last,
                k.0,
              ),
            )
        go (threw ran r) k f later = absurd k

  has_id-AllFrom : (i w : ℕ) (ts : List (Timer F)) → has_id i ts ≡ false → AllFrom i w ts
  has_id-AllFrom i w [] h = tt
  has_id-AllFrom i w (t ∷ ts) h =
      (inl (has_id-not i t ts h), has_id-AllFrom i w ts (has_id-rest i t ts h))

  -- A timer that was added waits for its time.
  pub added-IsWaiting :
      (t : Timer F) (q : TimerQueue F)
      → HasCallbacks q.timers
      → t.callback ≢ none
      → has_id t.id q.timers ≡ false
      → IsWaiting t.id t.when (execute (add t) q)
  unfolding execute
  added-IsWaiting t q c set n =
      let (timers, ids) = timers-added t q in
      rw (timers, ids)
        (record {
          callbacks = push-HasCallbacks t q.timers set c;
          there = push-has_due t t.when q.timers (omega arith);
          not_before =
              push-AllFrom t.id t.when t q.timers (inr (omega arith))
                (has_id-AllFrom t.id t.when q.timers n);
          valid = contains-insert_id_self t.id q.timer_id_set;
        })
