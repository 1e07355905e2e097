-- ===== src/Time/DateTime/Pieces.antt =====
-- The date and the time of day that `fromDbStringLocal` (time/DateTime.cpp) splits a text into.
use mysql_connect_pool.Prelude.{
  ℕ, ◌+◌, ◌<◌, ◌≡◌, refl, ◌∙◌, false, List, [], ◌∷◌, ◌++◌, arith, ◌==◌, length, length-append,
}
use mysql_connect_pool.Utils.Split.Join.{join}
use mysql_connect_pool.Utils.Split.Pieces.{Free, IsPiece}
use mysql_connect_pool.Time.DateText.{ok, ◌>>=◌, is_digit}
use mysql_connect_pool.Time.DateTime.{Numbers, no_numbers, split, read_numbers, read_seconds}
use mysql_connect_pool.Time.DateTime.Reads.{read_clock-join, read_date-join, read_numbers-join}
use mysql_connect_pool.Time.DateTime.Written.{
  Calendar, dash, year_text, month_text, day_text, hour_text, minute_text, year_text-IsNumber,
  month_text-IsNumber, day_text-IsNumber, hour_text-IsNumber, minute_text-IsNumber, number-Free,
  Free-append,
}

pub join-Free :
    (d e : ℕ) (p q : List ℕ) (v : List (List ℕ))
    → (d == e) ≡ false
    → Free d p
    → Free d (join (e ∷ []) (q ∷ v))
    → Free d (join (e ∷ []) (p ∷ q ∷ v))
unfolding join
join-Free d e p q v h f g =
    Free-append d (p ++ (e ∷ [])) (join (e ∷ []) (q ∷ v)) (Free-append d p (e ∷ []) f (h, tt)) g

pub join-one_Free : (d e : ℕ) (p : List ℕ) → Free d p → Free d (join (e ∷ []) (p ∷ []))
unfolding join
join-one_Free d e p f = f

pub join-some :
    (e : ℕ) (p q : List ℕ) (v : List (List ℕ))
    → 0 < length p
    → 0 < length (join (e ∷ []) (p ∷ q ∷ v))
unfolding join
join-some e p q v h = rw (length-append, length-append) (omega arith)

module _ (c : Calendar) where
  pub date-IsPiece : IsPiece b' ' (join dash (year_text c ∷ month_text c ∷ day_text c ∷ []))
  unfolding is_digit
  date-IsPiece =
      let year = year_text-IsNumber c in
      (
        join-some b'-' (year_text c) (month_text c) (day_text c ∷ []) year.some_digits,
        join-Free b' ' b'-' (year_text c) (month_text c) (day_text c ∷ []) refl
            (number-Free b' ' (year_text c) refl year)
            (join-Free b' ' b'-' (month_text c) (day_text c) [] refl
              (number-Free b' ' (month_text c) refl (month_text-IsNumber c))
              (join-one_Free b' ' b'-' (day_text c)
                (number-Free b' ' (day_text c) refl (day_text-IsNumber c)))),
      )

  clock-IsPiece :
      (s : List ℕ)
      → Free b' ' s
      → IsPiece b' ' (join (b':' ∷ []) (hour_text c ∷ minute_text c ∷ s ∷ []))
  unfolding is_digit
  clock-IsPiece s f =
      let hour = hour_text-IsNumber c in
      (
        join-some b':' (hour_text c) (minute_text c) (s ∷ []) hour.some_digits,
        join-Free b' ' b':' (hour_text c) (minute_text c) (s ∷ []) refl
            (number-Free b' ' (hour_text c) refl hour)
            (join-Free b' ' b':' (minute_text c) s [] refl
              (number-Free b' ' (minute_text c) refl (minute_text-IsNumber c))
              (join-one_Free b' ' b':' s f)),
      )

  abbrev pub numbers : ℕ → Numbers
  numbers u = record {
    year = c.years + 1900;
    month = c.months + 1;
    day = c.day;
    hour = c.hour;
    minute = c.minute;
    second = c.second;
    micro_second = u;
  }

  -- The text with any seconds, when the seconds are read so.
  pub read_numbers-text :
      (s : List ℕ) (u : ℕ)
      → Free b' ' s
      → IsPiece b':' s
      → ((n : Numbers)
          → n.micro_second ≡ 0
          → (split b'.' s >>= read_seconds n)
            ≡ ok (record n { second = c.second; micro_second = u }))
      → (split b' ' (
            join (b' ' ∷ []) (
              join dash (year_text c ∷ month_text c ∷ day_text c ∷ [])
              ∷ join (b':' ∷ []) (hour_text c ∷ minute_text c ∷ s ∷ [])
              ∷ []))
          >>= read_numbers)
        ≡ ok (numbers u)
  read_numbers-text s u f i r =
      let few_years = c.few_years in
      let few_months = c.few_months in
      let few_days = c.few_days in
      let few_hours = c.few_hours in
      let few_minutes = c.few_minutes in
      read_numbers-join (join dash (year_text c ∷ month_text c ∷ day_text c ∷ []))
        (join (b':' ∷ []) (hour_text c ∷ minute_text c ∷ s ∷ [])) date-IsPiece (clock-IsPiece s f)
      ∙ read_date-join (c.years + 1900) (c.months + 1) c.day (year_text c) (month_text c)
          (day_text c) (join (b':' ∷ []) (hour_text c ∷ minute_text c ∷ s ∷ []))
          (year_text-IsNumber c) (omega arith) (month_text-IsNumber c) (omega arith)
          (day_text-IsNumber c) (omega arith)
      ∙ read_clock-join
          (record no_numbers { year = c.years + 1900; month = c.months + 1; day = c.day }) c.hour
          c.minute (hour_text c) (minute_text c) s (hour_text-IsNumber c) (omega arith)
          (minute_text-IsNumber c) (omega arith) i
      ∙ r _ refl
