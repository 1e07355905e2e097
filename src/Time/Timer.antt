-- ===== src/Time/Timer.antt =====
-- time/Timer.cpp. A time point and an interval are numbers of nanoseconds; only the sign of an
-- interval that is not positive matters, so it is 0 here. A callback is a value of any type `F`,
-- absent for an empty `std::function`.
use mysql_connect_pool.Prelude.{
  ℕ, suc, ◌+◌, ◌-◌, ◌*◌, ◌/◌, ◌%◌, ◌^◌, ◌<◌, ◌≤◌, ◌≡◌, ◌≢◌, Bool, Option, ◌⊎◌, ltb, if◌then◌else◌,
  arith,
}

pub record Timer (F : Type 0) : Type 0 where
  pub callback : Option F
  pub when : ℕ
  pub interval : ℕ
  pub id : ℕ

-- `TimerId` is a `uint64_t`.
abbrev pub id_mod : ℕ
id_mod = 2 ^ 64

-- `++timersCreated_`: the counter after it, and the id.
unfoldable pub next_id : ℕ → ℕ
next_id created = (created + 1) % id_mod

module _ {F : Type 0} where
  -- The constructors of `Timer`.
  unfoldable pub make_timer : Option F → ℕ → ℕ → ℕ → Timer F × ℕ
  unfolding next_id
  make_timer cb when interval created = (
    record { callback = cb; when = when; interval = interval; id = next_id created },
    next_id created,
  )

  unfoldable pub is_repeat : Timer F → Bool
  is_repeat t = ltb 0 t.interval

  -- `restart`; the clock is read where the timer does not repeat.
  unfoldable pub restart : ℕ → ℕ → Timer F → Timer F
  unfolding is_repeat
  restart now clock t =
      if is_repeat t then record t { when = now + t.interval } else record t { when = clock }

  -- `operator<`
  unfoldable pub earlier : Timer F → Timer F → Bool
  earlier t u = ltb t.when u.when

-- The ids that follow each other on the counter.
unfoldable pub created_after : ℕ → ℕ → ℕ
unfolding next_id
created_after ℕ.zero created = created
created_after (suc n) created = next_id (created_after n created)

created_after-mod :
    (n created : ℕ) → created < id_mod → created_after n created ≡ (created + n) % id_mod
unfolding created_after next_id
created_after-mod ℕ.zero created h = omega arith
created_after-mod (suc n) created h = omega (arith, created_after-mod n created h)

-- Two timers get different ids, if fewer than 2^64 timers are made between them.
pub created_after-ne :
    (created m n : ℕ)
    → created < id_mod
    → m < n
    → n < m + id_mod
    → created_after m created ≢ created_after n created
created_after-ne created m n h lt gap =
    omega (arith, created_after-mod m created h, created_after-mod n created h)

-- `howMuchTimeFromNow` of time/TimerQueue.cpp: the microseconds that the `duration_cast` keeps of the
-- nanoseconds of the steady clock, and the `timespec`. A time point
-- that has passed gives a negative difference, which is below 100 as 0 is.
unfoldable pub micros_from_now : ℕ → ℕ → ℕ
micros_from_now when now =
    let micros = (when - now) / 1000 in if ltb micros 100 then 100 else micros

pub record Timespec : Type 0 where
  pub tv_sec : ℕ
  pub tv_nsec : ℕ

unfoldable pub how_much_time_from_now : ℕ → ℕ → Timespec
unfolding micros_from_now
how_much_time_from_now when now =
    let micros = micros_from_now when now in
    record { tv_sec = micros / 1000000; tv_nsec = (micros % 1000000) * 1000 }

-- The `timespec` is a valid one of at least 100 microseconds. It falls short of the time up to the
-- time point by less than a microsecond, and is longer only if that is below 100 microseconds, when
-- it is just these; else it is a whole number of microseconds.
pub how_much_time_from_now_lem :
    (when now : ℕ)
    → let ts = how_much_time_from_now when now in
      (ts.tv_nsec < 1000000000)
      × (100000 ≤ ts.tv_sec * 1000000000 + ts.tv_nsec)
      × (when - now < ts.tv_sec * 1000000000 + ts.tv_nsec + 1000)
      × (ts.tv_nsec % 1000 ≡ 0)
      × (((when - now < 100000) × (ts.tv_sec * 1000000000 + ts.tv_nsec ≡ 100000))
          ⊎ (ts.tv_sec * 1000000000 + ts.tv_nsec ≤ when - now))
unfolding how_much_time_from_now
how_much_time_from_now_lem when now = ground arith
