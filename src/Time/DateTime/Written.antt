-- ===== src/Time/DateTime/Written.antt =====
-- The texts that time/DateTime.cpp writes for a local time, by their parts.
use mysql_connect_pool.Prelude.{
  ℕ, ◌+◌, ◌%◌, ◌<◌, ◌≡◌, true, false, List, [], ◌∷◌, ◌++◌, arith, append_assoc, append-nil,
}
use mysql_connect_pool.Prelude.Int.{ℤ, pos, ◌+ℤ◌}
use mysql_connect_pool.Utils.Split.Join.{join}
use mysql_connect_pool.Utils.Split.Pieces.{Free}
use mysql_connect_pool.Time.DateText.{zeros, blanks, is_digit}
use mysql_connect_pool.Time.DateText.Digits.{
  IsNumber, AllDigits-Free, zeros-IsNumber, blanks-IsNumber,
}
use mysql_connect_pool.Time.DateTime.{Tm, micros_of, date_text, clock_text, full_text}

-- A local time from the year 1900 on: the years since 1900, the month from 0.
pub record Calendar : Type 0 where
  pub years : ℕ
  pub months : ℕ
  pub day : ℕ
  pub hour : ℕ
  pub minute : ℕ
  pub second : ℕ
  pub few_years : years < 8100
  pub few_months : months < 12
  pub few_days : day < 32
  pub few_hours : hour < 24
  pub few_minutes : minute < 60
  pub few_seconds : second < 61

abbrev pub tm_of : Calendar → ℤ → Tm
tm_of c isdst = record {
  tm_year = pos c.years;
  tm_mon = pos c.months;
  tm_mday = pos c.day;
  tm_hour = pos c.hour;
  tm_min = pos c.minute;
  tm_sec = pos c.second;
  tm_isdst = isdst;
}

abbrev pub dash : List ℕ
dash = b'-' ∷ []

module _ (c : Calendar) where
  pub year_text : List ℕ
  year_text = blanks 4 (pos (c.years + 1900))

  pub month_text : List ℕ
  month_text = zeros 2 (pos (c.months + 1))

  pub day_text : List ℕ
  day_text = zeros 2 (pos c.day)

  pub hour_text : List ℕ
  hour_text = zeros 2 (pos c.hour)

  pub minute_text : List ℕ
  minute_text = zeros 2 (pos c.minute)

  pub second_text : List ℕ
  second_text = zeros 2 (pos c.second)

  pub year_text-IsNumber : IsNumber (c.years + 1900) year_text
  unfolding year_text
  year_text-IsNumber =
      let h = c.few_years in blanks-IsNumber 3 (c.years + 1900) (omega arith) (omega arith)

pub pos_add : (a b : ℕ) → pos a +ℤ pos b ≡ pos (a + b)
unfolding ◌+ℤ◌
pos_add a b = ground arith

pub date_text-join :
    (c : Calendar) (isdst : ℤ)
    → date_text dash (tm_of c isdst) ≡ join dash (year_text c ∷ month_text c ∷ day_text c ∷ [])
unfolding date_text join year_text month_text day_text
date_text-join c isdst = rw (pos_add c.years 1900, pos_add c.months 1) (simp append_assoc)

module _ (c : Calendar) where
  pub month_text-IsNumber : IsNumber (c.months + 1) (month_text c)
  unfolding month_text
  month_text-IsNumber = let h = c.few_months in zeros-IsNumber 2 (c.months + 1) (omega arith)

  pub day_text-IsNumber : IsNumber c.day (day_text c)
  unfolding day_text
  day_text-IsNumber = let h = c.few_days in zeros-IsNumber 2 c.day (omega arith)

  pub hour_text-IsNumber : IsNumber c.hour (hour_text c)
  unfolding hour_text
  hour_text-IsNumber = let h = c.few_hours in zeros-IsNumber 2 c.hour (omega arith)

  pub minute_text-IsNumber : IsNumber c.minute (minute_text c)
  unfolding minute_text
  minute_text-IsNumber = let h = c.few_minutes in zeros-IsNumber 2 c.minute (omega arith)

  pub second_text-IsNumber : IsNumber c.second (second_text c)
  unfolding second_text
  second_text-IsNumber = let h = c.few_seconds in zeros-IsNumber 2 c.second (omega arith)

pub Free-append : (d : ℕ) (p q : List ℕ) → Free d p → Free d q → Free d (p ++ q)
Free-append d [] q f g = g
Free-append d (c ∷ p) q (e, f) g = (e, Free-append d p q f g)

pub number-Free : {n : ℕ} (d : ℕ) (s : List ℕ) → is_digit d ≡ false → IsNumber n s → Free d s
number-Free d s h i = AllDigits-Free d s h i.all_digits

pub full_text-join :
    (c : Calendar) (isdst t : ℤ)
    → full_text false dash (tm_of c isdst) t
      ≡ join (b' ' ∷ []) (
          join dash (year_text c ∷ month_text c ∷ day_text c ∷ [])
          ∷ join (b':' ∷ []) (hour_text c ∷ minute_text c ∷ second_text c ∷ [])
          ∷ [])
unfolding full_text clock_text join hour_text minute_text second_text
full_text-join c isdst t = rw (date_text-join c isdst) (simp (append_assoc, append-nil))

pub full_text-join_micros :
    (c : Calendar) (isdst : ℤ) (n : ℕ)
    → full_text true dash (tm_of c isdst) (pos n)
      ≡ join (b' ' ∷ []) (
          join dash (year_text c ∷ month_text c ∷ day_text c ∷ [])
          ∷ join (b':' ∷ []) (
              hour_text c
              ∷ minute_text c
              ∷ join (b'.' ∷ []) (second_text c ∷ zeros 6 (pos (n % 1000000)) ∷ [])
              ∷ [])
          ∷ [])
unfolding full_text clock_text join hour_text minute_text second_text micros_of
full_text-join_micros c isdst n = rw (date_text-join c isdst) (simp append_assoc)
