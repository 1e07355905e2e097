-- ===== src/Time/DateTime.antt =====
-- time/DateTime.cpp and time/DateTime.h: a point in time, in microseconds since the epoch, and its
-- texts. Time is counted on unbounded integers. Not modelled: the formats of `strftime`, and the
-- clock.
pub mod Reads
pub mod Written
pub mod Pieces
pub mod RoundTrip
pub mod Offset
pub mod Custom
use mysql_connect_pool.Prelude.{
  ℕ, zero, suc, ◌+◌, ◌-◌, ◌*◌, ◌/◌, ◌%◌, ◌^◌, Bool, true, false, not, ◌&&◌, Option, none, some,
  List, [], ◌∷◌, ◌++◌, ltb, leb, ◌==◌, if◌then◌else◌, length, replicate, take,
}
use mysql_connect_pool.Prelude.Int.{ℤ, pos, negsuc, ◌+ℤ◌, ◌-ℤ◌, eq_ℤ, lt_ℤ}
use mysql_connect_pool.Utils.Split.{split_string}
use mysql_connect_pool.Time.DateText.{zeros, blanks, Parsed, ok, undefined, stuck, ◌>>=◌, stol}

-- `struct tm`, without the day of the week and of the year, which `mktime` does not read.
pub record Tm : Type 0 where
  pub tm_year : ℤ
  pub tm_mon : ℤ
  pub tm_mday : ℤ
  pub tm_hour : ℤ
  pub tm_min : ℤ
  pub tm_sec : ℤ
  pub tm_isdst : ℤ

-- A `DateTime` is its `microSecondsSinceEpoch_`. `/` and `%` by a million round to 0.
abbrev neg : ℕ → ℤ
neg n = if n == 0 then pos 0 else negsuc (n - 1)

unfoldable pub seconds_since_epoch : ℤ → ℤ
seconds_since_epoch (pos n) = pos (n / 1000000)
seconds_since_epoch (negsuc n) = neg (suc n / 1000000)

unfoldable pub micros_of : ℤ → ℤ
micros_of (pos n) = pos (n % 1000000)
micros_of (negsuc n) = neg (suc n % 1000000)

abbrev pub times_million : ℤ → ℤ
times_million (pos n) = pos (n * 1000000)
times_million (negsuc n) = negsuc (suc n * 1000000 - 1)

unfoldable pub round_second : ℤ → ℤ
unfolding micros_of ◌-ℤ◌
round_second t = t -ℤ micros_of t

-- An `unsigned int` from a `long`, and an `int` from an `unsigned int`.
unfoldable pub to_unsigned : ℤ → ℕ
to_unsigned (pos n) = n % 2 ^ 32
to_unsigned (negsuc n) = 2 ^ 32 - 1 - n % 2 ^ 32

unfoldable pub to_int : ℕ → ℤ
to_int n = if ltb n (2 ^ 31) then pos n else negsuc (2 ^ 32 - 1 - n)

-- `a - b` on `unsigned int`.
unfoldable pub minus_unsigned : ℕ → ℕ → ℕ
minus_unsigned a b = (a + 2 ^ 32 - b) % 2 ^ 32

-- The seven numbers of `fromDbStringLocal`, as they are read.
pub record Numbers : Type 0 where
  pub year : ℕ
  pub month : ℕ
  pub day : ℕ
  pub hour : ℕ
  pub minute : ℕ
  pub second : ℕ
  pub micro_second : ℕ

abbrev pub no_numbers : Numbers
no_numbers = record {
  year = 0;
  month = 0;
  day = 0;
  hour = 0;
  minute = 0;
  second = 0;
  micro_second = 0;
}

abbrev pieces : Option (List (List ℕ)) → Parsed (List (List ℕ))
pieces none = stuck
pieces (some v) = ok v

unfoldable pub split : ℕ → List ℕ → Parsed (List (List ℕ))
split d s = pieces (split_string s (d ∷ []) false)

unfoldable pub unsigned : List ℕ → Parsed ℕ
unsigned s = stol s >>= λ n. ok (to_unsigned n)

-- Six digits, as `resize` or `append` make them.
unfoldable pub six_digits : List ℕ → List ℕ
six_digits s = if ltb 6 (length s) then take 6 s else s ++ replicate (6 - length s) b'0'

unfoldable pub read_seconds : Numbers → List (List ℕ) → Parsed Numbers
read_seconds n [] = undefined
read_seconds n (s ∷ []) = unsigned s >>= λ second. ok (record n { second = second })
read_seconds n (s ∷ m ∷ more) = unsigned s >>= λ second. unsigned (six_digits m) >>= λ micro_second.
    ok (record n { second = second; micro_second = micro_second })

unfoldable pub read_clock : Numbers → List (List ℕ) → Parsed Numbers
read_clock n (h ∷ m ∷ s ∷ more) = unsigned h >>= λ hour. unsigned m >>= λ minute.
    split b'.' s >>= read_seconds (record n { hour = hour; minute = minute })
read_clock n v = ok n

unfoldable pub read_date : List ℕ → List (List ℕ) → Parsed Numbers
read_date time (y ∷ m ∷ d ∷ []) = unsigned y >>= λ year. unsigned m >>= λ month.
    unsigned d >>= λ day.
    split b':' time >>= read_clock (record no_numbers { year = year; month = month; day = day })
read_date time v = ok no_numbers

unfoldable pub read_numbers : List (List ℕ) → Parsed Numbers
read_numbers (date ∷ time ∷ []) = split b'-' date >>= read_date time
read_numbers v = ok no_numbers

-- The parts of the formats: the date with a separator, the time of day, the microseconds.
unfoldable pub date_text : List ℕ → Tm → List ℕ
date_text sep tm =
    blanks 4 (tm.tm_year +ℤ pos 1900)
    ++ sep
    ++ zeros 2 (tm.tm_mon +ℤ pos 1)
    ++ sep
    ++ zeros 2 tm.tm_mday

unfoldable pub clock_text : Tm → List ℕ
clock_text tm =
    zeros 2 tm.tm_hour ++ (b':' ∷ []) ++ zeros 2 tm.tm_min ++ (b':' ∷ []) ++ zeros 2 tm.tm_sec

unfoldable pub full_text : Bool → List ℕ → Tm → ℤ → List ℕ
full_text show_microseconds sep tm t =
    date_text sep tm
    ++ (b' ' ∷ [])
    ++ clock_text tm
    ++ (if show_microseconds then b'.' ∷ zeros 6 (micros_of t) else [])

-- The conversions between seconds and the calendar are the C library's.
module _ (localtime_r gmtime_r : ℤ → Tm) (mktime : Tm → ℤ) where
  -- The constructor of seven numbers.
  unfoldable pub make_date_time : ℕ → ℕ → ℕ → ℕ → ℕ → ℕ → ℕ → ℤ
  unfolding to_int minus_unsigned ◌+ℤ◌
  make_date_time year month day hour minute second micro_second =
      times_million (
        mktime record {
          tm_year = to_int (minus_unsigned year 1900);
          tm_mon = to_int (minus_unsigned month 1);
          tm_mday = to_int day;
          tm_hour = to_int hour;
          tm_min = to_int minute;
          tm_sec = to_int second;
          tm_isdst = negsuc 0;
        })
      +ℤ pos micro_second

  unfoldable pub round_day : ℤ → ℤ
  unfolding seconds_since_epoch
  round_day t = times_million (
      mktime (record (localtime_r (seconds_since_epoch t)) {
        tm_hour = pos 0;
        tm_min = pos 0;
        tm_sec = pos 0;
      }))

  unfoldable pub tm_struct : ℤ → Tm
  unfolding seconds_since_epoch
  tm_struct t = gmtime_r (seconds_since_epoch t)

  unfoldable pub to_formatted_string : Bool → ℤ → List ℕ
  unfolding full_text seconds_since_epoch
  to_formatted_string show_microseconds t =
      full_text show_microseconds [] (gmtime_r (seconds_since_epoch t)) t

  unfoldable pub to_formatted_string_local : Bool → ℤ → List ℕ
  unfolding full_text seconds_since_epoch
  to_formatted_string_local show_microseconds t =
      full_text show_microseconds [] (localtime_r (seconds_since_epoch t)) t

  unfoldable pub to_db_string_local : ℤ → List ℕ
  to_db_string_local t =
      let tm = localtime_r (seconds_since_epoch t) in
      if not (eq_ℤ (micros_of t) (pos 0))
      then full_text true (b'-' ∷ []) tm t
      else if eq_ℤ t (round_day t)
      then date_text (b'-' ∷ []) tm
      else full_text false (b'-' ∷ []) tm t

  unfoldable pub from_numbers : Numbers → ℤ
  unfolding make_date_time
  from_numbers n = make_date_time n.year n.month n.day n.hour n.minute n.second n.micro_second

  unfoldable pub from_db_string_local : List ℕ → Parsed ℤ
  from_db_string_local datetime = split b' ' datetime >>= read_numbers >>= λ n. ok (from_numbers n)

  -- "1970-01-03 00:00:00" as a local time tells the offset.
  unfoldable pub timezone_offset : Parsed ℤ
  unfolding seconds_since_epoch ◌-ℤ◌
  timezone_offset =
      from_db_string_local (
        b'1' ∷ b'9' ∷ b'7' ∷ b'0' ∷ b'-' ∷ b'0' ∷ b'1' ∷ b'-' ∷ b'0' ∷ b'3' ∷ b' ' ∷ b'0' ∷ b'0'
        ∷ b':' ∷ b'0' ∷ b'0' ∷ b':' ∷ b'0' ∷ b'0' ∷ [])
      >>= λ t. ok (pos 172800 -ℤ seconds_since_epoch t)
