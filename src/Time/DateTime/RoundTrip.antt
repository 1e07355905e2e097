-- ===== src/Time/DateTime/RoundTrip.antt =====
-- `toDbStringLocal` and `fromDbStringLocal` (time/DateTime.cpp).
use mysql_connect_pool.Prelude.{
  ℕ, ◌+◌, ◌*◌, ◌/◌, ◌%◌, ◌^◌, ◌<◌, ◌≡◌, ◌≢◌, inl, inr, refl, ap, ◌∙◌, true, false, List, [], ◌∷◌,
  arith, ◌==◌, lt→ltb, Bool-cases,
}
use mysql_connect_pool.Prelude.Int.{ℤ, pos, negsuc, eq_ℤ}
use mysql_connect_pool.Utils.Split.Join.{join}
use mysql_connect_pool.Utils.Split.Pieces.{Free}
use mysql_connect_pool.Time.DateText.{zeros, ok, ◌>>=◌, is_digit}
use mysql_connect_pool.Time.DateText.Digits.{zeros-IsNumber, length-zeros}
use mysql_connect_pool.Time.DateTime.{
  Tm, seconds_since_epoch, micros_of, to_int, minus_unsigned, split, read_numbers, make_date_time,
  from_numbers, round_day, date_text, full_text, to_db_string_local, from_db_string_local,
}
use mysql_connect_pool.Time.DateTime.Reads.{
  read_seconds-whole, read_seconds-fraction, read_numbers-date,
}
use mysql_connect_pool.Time.DateTime.Written.{
  pos_add, Calendar, tm_of, dash, year_text, month_text, day_text, second_text,
  second_text-IsNumber, date_text-join, full_text-join, full_text-join_micros, number-Free,
}
use mysql_connect_pool.Time.DateTime.Pieces.{
  join-Free, join-one_Free, join-some, date-IsPiece, numbers, read_numbers-text,
}

int_small : (n : ℕ) → n < 2 ^ 31 → to_int n ≡ pos n
unfolding to_int
int_small n h = rw (lt→ltb n (2 ^ 31) h) refl

minus_small : (a b : ℕ) → a + b < 2 ^ 32 → minus_unsigned (a + b) b ≡ a
unfolding minus_unsigned
minus_small a b h = omega arith

zero_test : (m : ℕ) → (m + 0 == 0) ≡ (m == 0)
zero_test m = ground arith

eq_ℤ-pos : (n : ℕ) (b : ℤ) → eq_ℤ (pos n) b ≡ true → b ≡ pos n
eq_ℤ-pos n (pos m) h = let same : m ≡ n = ground arith in ap pos same
eq_ℤ-pos n (negsuc m) h = absurd (ground arith)

eq_ℤ_refl : (n : ℕ) → eq_ℤ (pos n) (pos n) ≡ true
eq_ℤ_refl n = ground arith

module _ (localtime_r gmtime_r : ℤ → Tm) (mktime : Tm → ℤ) where
  -- At this second since the epoch the C library gives a valid local time, and `mktime` finds the
  -- second again when it is told nothing of daylight saving. That leaves out an hour that the clock
  -- shows twice.
  pub record IsLocal (sec : ℕ) : Type 0 where
    pub calendar : Calendar
    pub isdst : ℤ
    pub broken : localtime_r (pos sec) ≡ tm_of calendar isdst
    pub made : mktime (tm_of calendar (negsuc 0)) ≡ pos sec

  from_numbers-numbers :
      (c : Calendar) (u sec : ℕ)
      → mktime (tm_of c (negsuc 0)) ≡ pos sec
      → from_numbers localtime_r gmtime_r mktime (numbers c u) ≡ pos (sec * 1000000 + u)
  unfolding from_numbers make_date_time
  from_numbers-numbers c u sec made =
      let few_years = c.few_years in
      let few_months = c.few_months in
      let few_days = c.few_days in
      let few_hours = c.few_hours in
      let few_minutes = c.few_minutes in
      let few_seconds = c.few_seconds in
      rw
        (
          minus_small c.years 1900 (omega arith),
          minus_small c.months 1 (omega arith),
          int_small c.years (omega arith),
          int_small c.months (omega arith),
          int_small c.day (omega arith),
          int_small c.hour (omega arith),
          int_small c.minute (omega arith),
          int_small c.second (omega arith),
          made,
        )
        (pos_add (sec * 1000000) u)

  module _ (n : ℕ) (law : IsLocal (n / 1000000)) where
    second_text-Free : (d : ℕ) → is_digit d ≡ false → Free d (second_text law.calendar)
    second_text-Free d h =
        number-Free d (second_text law.calendar) h (second_text-IsNumber law.calendar)

    read_numbers-whole :
        (split b' ' (full_text false dash (tm_of law.calendar law.isdst) (pos n)) >>= read_numbers)
        ≡ ok (numbers law.calendar 0)
    unfolding is_digit
    read_numbers-whole =
        let c = law.calendar in
        let few = c.few_seconds in
        let i = second_text-IsNumber c in
        rw (full_text-join c law.isdst (pos n)) (
          read_numbers-text c (second_text c) 0 (second_text-Free b' ' refl)
            (i.some_digits, second_text-Free b':' refl)
            (λ m z.
              read_seconds-whole m c.second (second_text c) i (omega arith)
              ∙ ap (λ k. ok (record m { second = c.second; micro_second = k })) z))

    read_numbers-micros :
        (split b' ' (full_text true dash (tm_of law.calendar law.isdst) (pos n)) >>= read_numbers)
        ≡ ok (numbers law.calendar (n % 1000000))
    unfolding is_digit
    read_numbers-micros =
        let c = law.calendar in
        let few = c.few_seconds in
        let i = second_text-IsNumber c in
        let u = zeros 6 (pos (n % 1000000)) in
        let j = zeros-IsNumber 6 (n % 1000000) (omega arith) in
        rw (full_text-join_micros c law.isdst n) (
          read_numbers-text c (join (b'.' ∷ []) (second_text c ∷ u ∷ [])) (n % 1000000)
            (join-Free b' ' b'.' (second_text c) u [] refl (second_text-Free b' ' refl)
              (join-one_Free b' ' b'.' u (number-Free b' ' u refl j)))
            (
              join-some b'.' (second_text c) u [] i.some_digits,
              join-Free b':' b'.' (second_text c) u [] refl (second_text-Free b':' refl)
                  (join-one_Free b':' b'.' u (number-Free b':' u refl j)),
            )
            (λ m z.
              read_seconds-fraction m c.second (n % 1000000) (second_text c) u i (omega arith) j
                (omega arith) (length-zeros 5 (n % 1000000) (omega arith))))

    from_full_text :
        (text : List ℕ) (u : ℕ)
        → (split b' ' text >>= read_numbers) ≡ ok (numbers law.calendar u)
        → from_db_string_local localtime_r gmtime_r mktime text
          ≡ ok (pos (n / 1000000 * 1000000 + u))
    unfolding from_db_string_local
    from_full_text text u r =
        rw (r, from_numbers-numbers law.calendar u (n / 1000000) law.made) refl

    to_micros :
        (n % 1000000 == 0) ≡ false
        → to_db_string_local localtime_r gmtime_r mktime (pos n)
          ≡ full_text true dash (tm_of law.calendar law.isdst) (pos n)
    unfolding to_db_string_local seconds_since_epoch micros_of
    to_micros h = rw (zero_test (n % 1000000), h, law.broken) refl

    to_whole :
        (n % 1000000 == 0) ≡ true
        → eq_ℤ (pos n) (round_day localtime_r gmtime_r mktime (pos n)) ≡ false
        → to_db_string_local localtime_r gmtime_r mktime (pos n)
          ≡ full_text false dash (tm_of law.calendar law.isdst) (pos n)
    unfolding to_db_string_local seconds_since_epoch micros_of
    to_whole h r = rw (zero_test (n % 1000000), h, r, law.broken) refl

    to_date :
        (n % 1000000 == 0) ≡ true
        → eq_ℤ (pos n) (round_day localtime_r gmtime_r mktime (pos n)) ≡ true
        → to_db_string_local localtime_r gmtime_r mktime (pos n)
          ≡ date_text dash (tm_of law.calendar law.isdst)
    unfolding to_db_string_local seconds_since_epoch micros_of
    to_date h r = rw (zero_test (n % 1000000), h, r, law.broken) refl

-- A time from 1970 on that is no local midnight is read back from the text that `toDbStringLocal`
-- writes, to the microsecond, if the C library knows its second: `mktime`, which is not told of
-- daylight saving time, makes that second of the local time of it. Of an hour that comes twice when
-- the clocks go back this holds in one pass only.
pub from_db_string_local-to_db_string_local :
    (localtime_r gmtime_r : ℤ → Tm) (mktime : Tm → ℤ) (n : ℕ)
    → IsLocal localtime_r gmtime_r mktime (n / 1000000)
    → round_day localtime_r gmtime_r mktime (pos n) ≢ pos n
    → from_db_string_local localtime_r gmtime_r mktime
        (to_db_string_local localtime_r gmtime_r mktime (pos n))
      ≡ ok (pos n)
from_db_string_local-to_db_string_local localtime_r gmtime_r mktime n law h =
    elim (Bool-cases (n % 1000000 == 0)) [
      | inr e ↦ rw (to_micros localtime_r gmtime_r mktime n law e) (
          from_full_text localtime_r gmtime_r mktime n law _ (n % 1000000)
            (read_numbers-micros localtime_r gmtime_r mktime n law)
          ∙ ap (λ m. ok (pos m)) (omega arith))
      | inl e ↦ elim (Bool-cases (eq_ℤ (pos n) (round_day localtime_r gmtime_r mktime (pos n)))) [
        | inl q ↦ absurd (h (eq_ℤ-pos n _ q))
        | inr q ↦
            let whole : n % 1000000 ≡ 0 = ground arith in
            rw (to_whole localtime_r gmtime_r mktime n law e q) (
              from_full_text localtime_r gmtime_r mktime n law _ 0
                (read_numbers-whole localtime_r gmtime_r mktime n law)
              ∙ ap (λ m. ok (pos m)) (omega arith))
      ]
    ]

-- At a local midnight, with no microseconds, the text is the date alone, and what `fromDbStringLocal`
-- reads in it is the time of seven zeros, whichever day it is.
pub from_db_string_local-midnight :
    (localtime_r gmtime_r : ℤ → Tm) (mktime : Tm → ℤ) (n : ℕ)
    → IsLocal localtime_r gmtime_r mktime (n / 1000000)
    → n % 1000000 ≡ 0
    → round_day localtime_r gmtime_r mktime (pos n) ≡ pos n
    → from_db_string_local localtime_r gmtime_r mktime
        (to_db_string_local localtime_r gmtime_r mktime (pos n))
      ≡ ok (make_date_time localtime_r gmtime_r mktime 0 0 0 0 0 0 0)
unfolding from_db_string_local from_numbers
from_db_string_local-midnight localtime_r gmtime_r mktime n law z h =
    rw
      (
        to_date localtime_r gmtime_r mktime n law (rw z refl) (rw h (eq_ℤ_refl n)),
        date_text-join law.calendar law.isdst,
        read_numbers-date
            (join dash
              (year_text law.calendar ∷ month_text law.calendar ∷ day_text law.calendar ∷ []))
            (date-IsPiece law.calendar),
      )
      refl
