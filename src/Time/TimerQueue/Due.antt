-- ===== src/Time/TimerQueue/Due.antt =====
-- A timer whose time has come runs when the timerfd fires (time/TimerQueue.cpp).
use mysql_connect_pool.Prelude.{
  ℕ, ◌<◌, ◌≡◌, ◌≢◌, refl, Bool, true, false, ◌&&◌, ◌||◌, none, some, List, [], ◌∷◌, ◌++◌, leb, ◌==◌,
  if◌then◌else◌, arith, ◌⊎◌, inl, inr, Bool-cases, Option-cases, ==_iff,
}
use mysql_connect_pool.Time.Timer.{Timer, is_repeat, restart}
use mysql_connect_pool.Time.TimerQueue.{
  Effect, TimerQueue, Command, add, cancel, Calls, finished, threw, contains, insert_id, erase_id,
  insert, add_timer_in_loop, invalidate_timer, execute, execute_all, get_expired, reset_each,
  arm_first, reset, call_each, handle_read,
}
use mysql_connect_pool.Time.TimerQueue.Order.{AtLeast, IsSorted}
use mysql_connect_pool.Time.TimerQueue.Reset.{IsIn, AllReset, reset_each-head, reset_each-AllReset}

pub contains-insert_id_kept :
    (i j : ℕ) (js : List ℕ) → contains i js ≡ true → contains i (insert_id j js) ≡ true
unfolding insert_id contains
contains-insert_id_kept i j js h = ground arith

pub contains-erase_id_kept :
    (i j : ℕ) (js : List ℕ) → i ≢ j → contains i js ≡ true → contains i (erase_id j js) ≡ true
unfolding contains erase_id
contains-erase_id_kept i j [] n h = cc
contains-erase_id_kept i j (k ∷ ks) n h = ground (arith, contains-erase_id_kept i j ks)

contains-append_last : (i : ℕ) (js : List ℕ) → contains i (js ++ (i ∷ [])) ≡ true
unfolding contains
contains-append_last i [] = ground arith
contains-append_last i (k ∷ ks) = ground (arith, contains-append_last i ks)

contains-append_more :
    (i j : ℕ) (js : List ℕ) → contains i js ≡ true → contains i (js ++ (j ∷ [])) ≡ true
unfolding contains
contains-append_more i j [] h = cc
contains-append_more i j (k ∷ ks) h = ground (arith, contains-append_more i j ks)

module _ {F : Type 0} where
  -- A timer of this id is in the list, and one that is due.
  abbrev pub has_id : ℕ → List (Timer F) → Bool
  has_id i [] = false
  has_id i (t ∷ ts) = i == t.id || has_id i ts

  abbrev pub has_due : ℕ → ℕ → List (Timer F) → Bool
  has_due i now [] = false
  has_due i now (t ∷ ts) = (i == t.id && leb t.when now) || has_due i now ts

  abbrev pub HasCallbacks : List (Timer F) → Type 0
  HasCallbacks [] = Unit
  HasCallbacks (t ∷ ts) = (t.callback ≢ none) × HasCallbacks ts

  -- The timer of this id is not invalidated.
  abbrev pub KeepsId : ℕ → List (Command F) → Type 0
  KeepsId i [] = Unit
  KeepsId i (add t ∷ cs) = KeepsId i cs
  KeepsId i (cancel j ∷ cs) = (i ≢ j) × KeepsId i cs

  -- A callback that returns, and that does not invalidate the timer of this id.
  abbrev pub Spares : ℕ → Effect F → Type 0
  Spares i e = (e.throws ≡ false) × KeepsId i e.commands

  -- The timers of this id repeat.
  abbrev pub AllRepeat : ℕ → List (Timer F) → Type 0
  AllRepeat i [] = Unit
  AllRepeat i (t ∷ ts) = ((i ≢ t.id) ⊎ (is_repeat t ≡ true)) × AllRepeat i ts

  -- The timers of this id are in the queue with their next times.
  abbrev pub AllAgain : ℕ → ℕ → ℕ → TimerQueue F → List (Timer F) → Type 0
  AllAgain i now clock q [] = Unit
  AllAgain i now clock q (t ∷ ts) =
      ((i ≢ t.id) ⊎ IsIn (restart now clock t) q.timers) × AllAgain i now clock q ts

  reset_one-valid :
      (i : ℕ) (t : Timer F) (now clock : ℕ) (q : TimerQueue F)
      → (i ≢ t.id) ⊎ (is_repeat t ≡ true)
      → contains i q.timer_id_set ≡ true
      → contains i
          (if contains t.id q.timer_id_set
            then (if is_repeat t
                then (insert (restart now clock t) q).1
                else record q { timer_id_set = erase_id t.id q.timer_id_set })
            else q).timer_id_set
        ≡ true
  unfolding insert
  reset_one-valid i t now clock q (inl n) v =
      ground (arith, v, contains-erase_id_kept i t.id q.timer_id_set n v)
  reset_one-valid i t now clock q (inr r) v = ground (arith, r, v)

  reset_each-AllAgain :
      (i : ℕ) (ts : List (Timer F)) (now clock : ℕ) (q : TimerQueue F)
      → AllRepeat i ts
      → contains i q.timer_id_set ≡ true
      → (contains i (reset_each ts now clock q).timer_id_set ≡ true)
        × AllAgain i now clock (reset_each ts now clock q) ts
  unfolding reset_each insert
  reset_each-AllAgain i [] now clock q a v = (v, tt)
  reset_each-AllAgain i (t ∷ ts) now clock q (other, a) v =
      let (valid, again) =
        reset_each-AllAgain i ts now clock _ (a) (reset_one-valid i t now clock q other v) in
      (
        valid,
        (
          elim other [
            | inl n ↦ inl n
            | inr r ↦ elim (Bool-cases (i == t.id)) [
              | inl e ↦ inr (reset_each-head t ts now clock q r (rw ((==_iff i t.id).0 e) at v))
              | inr e ↦ inl (λ x. cc (e, (==_iff i t.id).1 x))
            ]
          ],
          again,
        ),
      )

  get_expired-AllRepeat :
      (i now : ℕ) (ts : List (Timer F)) → AllRepeat i ts → AllRepeat i (get_expired now ts).0
  unfolding get_expired
  get_expired-AllRepeat i now [] h = tt
  get_expired-AllRepeat i now (t ∷ ts) h = elim (Bool-cases (leb t.when now)) [
    | inl e ↦ rw e (h.0, get_expired-AllRepeat i now ts h.1)
    | inr e ↦ rw e tt
  ]

  has_due-later :
      (i now n : ℕ) (ts : List (Timer F)) → AtLeast n ts → now < n → has_due i now ts ≡ false
  has_due-later i now n [] a h = refl
  has_due-later i now n (t ∷ ts) a h = ground (arith, has_due-later i now n ts a.1 h)

  get_expired-has_id :
      (i now : ℕ) (ts : List (Timer F))
      → IsSorted ts
      → has_due i now ts ≡ true
      → has_id i (get_expired now ts).0 ≡ true
  unfolding get_expired
  get_expired-has_id i now [] s h = cc
  get_expired-has_id i now (t ∷ ts) s h =
      ground (arith, get_expired-has_id i now ts s.1, has_due-later i now t.when ts s.0)

  pub get_expired-HasCallbacks :
      (now : ℕ) (ts : List (Timer F)) → HasCallbacks ts → HasCallbacks (get_expired now ts).0
  unfolding get_expired
  get_expired-HasCallbacks now [] h = tt
  get_expired-HasCallbacks now (t ∷ ts) h = elim (Bool-cases (leb t.when now)) [
    | inl e ↦ rw e (h.0, get_expired-HasCallbacks now ts h.1)
    | inr e ↦ rw e tt
  ]

  execute_all-kept :
      (i : ℕ) (cs : List (Command F)) (q : TimerQueue F)
      → KeepsId i cs
      → contains i q.timer_id_set ≡ true
      → contains i (execute_all cs q).timer_id_set ≡ true
  unfolding execute_all execute add_timer_in_loop invalidate_timer insert
  execute_all-kept i [] q k h = h
  execute_all-kept i (add t ∷ cs) q k h =
      execute_all-kept i cs _ k (ground (arith, contains-insert_id_kept i t.id q.timer_id_set h))
  execute_all-kept i (cancel j ∷ cs) q k h =
      execute_all-kept i cs _ k.1 (contains-erase_id_kept i j q.timer_id_set k.0 h)

  skipped_lem :
      (i : ℕ) (t : Timer F) (ts : List (Timer F)) (q : TimerQueue F) (ran : List ℕ)
      → contains i q.timer_id_set ≡ true
      → contains t.id q.timer_id_set ≡ false
      → (has_id i (t ∷ ts) ≡ true) ⊎ (contains i ran ≡ true)
      → (has_id i ts ≡ true) ⊎ (contains i ran ≡ true)
  skipped_lem i t ts q ran v e (inr h) = inr h
  skipped_lem i t ts q ran v e (inl h) = elim (Bool-cases (i == t.id)) [
    | inl w ↦ cc (v, e, (==_iff i t.id).0 w)
    | inr w ↦ inl (rw w at h)
  ]

  called_lem :
      (i : ℕ) (t : Timer F) (ts : List (Timer F)) (ran : List ℕ)
      → (has_id i (t ∷ ts) ≡ true) ⊎ (contains i ran ≡ true)
      → (has_id i ts ≡ true) ⊎ (contains i (ran ++ (t.id ∷ [])) ≡ true)
  called_lem i t ts ran (inr h) = inr (contains-append_more i t.id ran h)
  called_lem i t ts ran (inl h) = elim (Bool-cases (i == t.id)) [
    | inl w ↦ inr (rw ((==_iff i t.id).0 w) (contains-append_last t.id ran))
    | inr w ↦ inl (rw w at h)
  ]

  arm_first-AllReset :
      (now clock : ℕ) (q : TimerQueue F) (ts expired : List (Timer F))
      → AllReset now clock q expired
      → AllReset now clock (arm_first ts q) expired
  unfolding arm_first
  arm_first-AllReset now clock q [] expired a = a
  arm_first-AllReset now clock q (t ∷ ts) expired a = same_queue expired a
    where
      same_queue :
          (es : List (Timer F))
          → AllReset now clock q es
          → AllReset now clock (record q { armed = some t.when }) es
      same_queue [] a = a
      same_queue (e ∷ es) a = (a.0, a.1, same_queue es a.2)

  arm_first-valid :
      (i : ℕ) (q : TimerQueue F) (ts : List (Timer F))
      → contains i q.timer_id_set ≡ true
      → contains i (arm_first ts q).timer_id_set ≡ true
  unfolding arm_first
  arm_first-valid i q [] v = v
  arm_first-valid i q (t ∷ ts) v = v

  arm_first-AllAgain :
      (i now clock : ℕ) (q : TimerQueue F) (ts expired : List (Timer F))
      → AllAgain i now clock q expired
      → AllAgain i now clock (arm_first ts q) expired
  unfolding arm_first
  arm_first-AllAgain i now clock q [] expired a = a
  arm_first-AllAgain i now clock q (t ∷ ts) expired a = same_queue expired a
    where
      same_queue :
          (es : List (Timer F))
          → AllAgain i now clock q es
          → AllAgain i now clock (record q { armed = some t.when }) es
      same_queue [] a = a
      same_queue (e ∷ es) a = (a.0, same_queue es a.1)

  module _ (effects : ℕ → F → Effect F) where
    -- The loop over the expired timers ends, the timer of this id has run, and it is valid still.
    abbrev RanIt : ℕ → Calls F → Type 0
    RanIt i (finished ran q) = (contains i ran ≡ true) × (contains i q.timer_id_set ≡ true)
    RanIt i (threw ran q) = ⊥

    call_each-RanIt :
        (i : ℕ)
        → ((now : ℕ) (f : F) → Spares i (effects now f))
        → (ts : List (Timer F)) (now : ℕ) (q : TimerQueue F) (ran : List ℕ) → HasCallbacks ts
        → contains i q.timer_id_set ≡ true
        → (has_id i ts ≡ true) ⊎ (contains i ran ≡ true)
        → RanIt i (call_each effects ts now q ran)
    unfolding call_each
    call_each-RanIt i keeps [] now q ran c v (inl h) = cc
    call_each-RanIt i keeps [] now q ran c v (inr h) = (h, v)
    call_each-RanIt i keeps (t ∷ ts) now q ran c v h =
        elim (Bool-cases (contains t.id q.timer_id_set)) [
          | inr e ↦
              rw e (call_each-RanIt i keeps ts now q ran c.1 v (skipped_lem i t ts q ran v e h))
          | inl e ↦ elim (Option-cases t.callback) [
            | inl g ↦ absurd (c.0 g)
            | inr (f, g) ↦
                rw (e, g, (keeps now f).0)
                  (call_each-RanIt i keeps ts now (execute_all (effects now f).commands q)
                    (ran ++ (t.id ∷ [])) c.1
                    (execute_all-kept i (effects now f).commands q (keeps now f).1 v)
                    (called_lem i t ts ran h))
          ]
        ]

    -- `handleRead` on a queue whose timers have callbacks, none of which throws: it resets what is left
    -- of the calls, among which is that of a timer that is due and valid, and that none invalidates.
    handle_read-reset :
        (i now clock : ℕ) (q : TimerQueue F)
        → IsSorted q.timers
        → HasCallbacks q.timers
        → has_due i now q.timers ≡ true
        → contains i q.timer_id_set ≡ true
        → ((now : ℕ) (f : F) → Spares i (effects now f))
        → (ran : List ℕ) × (r : TimerQueue F) × (handle_read effects now clock q
            ≡ finished ran (reset (get_expired now q.timers).0 now clock r))
          × (contains i ran ≡ true)
          × (contains i r.timer_id_set ≡ true)
    unfolding handle_read
    handle_read-reset i now clock q s c d v keeps =
        let (expired, rest) = get_expired now q.timers in
        let started : TimerQueue F = record q { timers = rest; calling_expired_timers = true } in
        go (call_each effects expired now started []) (
          call_each-RanIt i keeps expired now started [] (get_expired-HasCallbacks now q.timers c) v
            (inl (get_expired-has_id i now q.timers s d)))
      where
        go :
            (o : Calls F)
            → RanIt i o
            → (ran : List ℕ) × (r : TimerQueue F) × ((elim o [
              | finished ran r ↦ finished ran (
                  reset
                    (get_expired now q.timers).0
                    now
                    clock
                    (record r { calling_expired_timers = false }))
              | threw ran r ↦ threw ran r
            ])
                ≡ finished ran (reset (get_expired now q.timers).0 now clock r))
              × (contains i ran ≡ true)
              × (contains i r.timer_id_set ≡ true)
        go (finished ran r) k = (ran, record r { calling_expired_timers = false }, refl, k.0, k.1)
        go (threw ran r) k = elim k [ ]

    -- If no timer in the queue lacks a callback and no callback throws, `handleRead` returns; a timer
    -- that is due and valid, and that no callback invalidates, has run then; each of the timers taken
    -- out that does not repeat is no longer valid, and each that repeats is no longer valid or is in
    -- the queue with its next time.
    pub handle_read-RanIt :
        (i now clock : ℕ) (q : TimerQueue F)
        → IsSorted q.timers
        → HasCallbacks q.timers
        → has_due i now q.timers ≡ true
        → contains i q.timer_id_set ≡ true
        → ((now : ℕ) (f : F) → Spares i (effects now f))
        → (ran : List ℕ) × (r : TimerQueue F) × (handle_read effects now clock q ≡ finished ran r)
          × (contains i ran ≡ true)
          × AllReset now clock r (get_expired now q.timers).0
    unfolding reset
    handle_read-RanIt i now clock q s c d v keeps =
        let expired = (get_expired now q.timers).0 in
        let (ran, r, e, done, _) = handle_read-reset i now clock q s c d v keeps in
        let u = reset_each expired now clock r in
        (
          ran,
          arm_first u.timers u,
          e,
          done,
          arm_first-AllReset now clock u u.timers expired (reset_each-AllReset expired now clock r),
        )

    -- If no timer in the queue lacks a callback, no callback throws or invalidates the timer of this
    -- id, and the timers of this id repeat, one of which is due and valid: `handleRead` returns; the
    -- timer has run, is valid still, and those of its id that were due are in the queue with their
    -- next times; and of all the timers taken out, each that does not repeat is no longer valid, and
    -- each that repeats is no longer valid or in the queue with its next time.
    pub handle_read-AllAgain :
        (i now clock : ℕ) (q : TimerQueue F)
        → IsSorted q.timers
        → HasCallbacks q.timers
        → AllRepeat i q.timers
        → has_due i now q.timers ≡ true
        → contains i q.timer_id_set ≡ true
        → ((now : ℕ) (f : F) → Spares i (effects now f))
        → (ran : List ℕ) × (r : TimerQueue F) × (handle_read effects now clock q ≡ finished ran r)
          × (contains i ran ≡ true)
          × (contains i r.timer_id_set ≡ true)
          × AllAgain i now clock r (get_expired now q.timers).0
          × AllReset now clock r (get_expired now q.timers).0
    unfolding reset
    handle_read-AllAgain i now clock q s c a d v keeps =
        let expired = (get_expired now q.timers).0 in
        let (ran, r, e, done, valid) = handle_read-reset i now clock q s c d v keeps in
        let u = reset_each expired now clock r in
        let (kept, again) =
          reset_each-AllAgain i expired now clock r (get_expired-AllRepeat i now q.timers a)
            valid in
        (
          ran,
          arm_first u.timers u,
          e,
          done,
          arm_first-valid i u u.timers kept,
          arm_first-AllAgain i now clock u u.timers expired again,
          arm_first-AllReset now clock u u.timers expired (reset_each-AllReset expired now clock r),
        )
