-- ===== src/Time/Examples/Dates.antt =====
-- The theorems on the texts of dates, over a calendar of one day.
use mysql_connect_pool.Prelude.{◌-◌, ℕ, ◌+◌, ◌*◌, ◌/◌, ◌%◌, ◌≡◌, ◌≢◌, refl, ap, arith}
use mysql_connect_pool.Prelude.Int.{ℤ, pos, ◌+ℤ◌, ◌-ℤ◌, pos_part}
use mysql_connect_pool.Time.DateText.{ok, ◌>>=◌, is_space, is_digit, value_of, signed, number, stol}
use mysql_connect_pool.Time.DateTime.{
  timezone_offset, to_unsigned, split, unsigned, read_seconds, read_clock, read_date, read_numbers,
  from_numbers, Tm, make_date_time, round_day, to_db_string_local, from_db_string_local,
}
use mysql_connect_pool.Utils.Split.{
  starts_with, next_place, find, push_piece, put_piece, split_rounds, split_string,
}
use mysql_connect_pool.Time.DateTime.Offset.{
  to_db_string, from_db_string, from_db_string-to_db_string,
}
use mysql_connect_pool.Time.DateTime.RoundTrip.{
  IsLocal, from_db_string_local-to_db_string_local, from_db_string_local-midnight,
}

-- The first day of 1970, on a clock with no daylight saving.
abbrev first_day : ℤ → Tm
first_day t =
    let s = pos_part t in
    record {
      tm_year = pos 70;
      tm_mon = pos 0;
      tm_mday = pos 1;
      tm_hour = pos (s / 3600);
      tm_min = pos (s / 60 % 60);
      tm_sec = pos (s % 60);
      tm_isdst = pos 0;
    }

abbrev second_of : Tm → ℤ
second_of tm = pos (
    (pos_part tm.tm_mday - 1) * 86400
    + pos_part tm.tm_hour * 3600
    + pos_part tm.tm_min * 60
    + pos_part tm.tm_sec)

-- 01:01:01.000005
abbrev after_one : ℕ
after_one = 3661000005

after_one-IsLocal : IsLocal first_day first_day second_of (after_one / 1000000)
after_one-IsLocal = record {
  calendar = record {
    years = 70;
    months = 0;
    day = 1;
    hour = 1;
    minute = 1;
    second = 1;
    few_years = omega arith;
    few_months = omega arith;
    few_days = omega arith;
    few_hours = omega arith;
    few_minutes = omega arith;
    few_seconds = omega arith;
  };
  isdst = pos 0;
  broken = refl;
  made = refl;
}

after_one-ne-midnight : round_day first_day first_day second_of (pos after_one) ≢ pos after_one
unfolding round_day
after_one-ne-midnight e = absurd (let n : 0 ≡ after_one = ap pos_part e in omega arith)

from_db_string_local-to_db_string_local_example :
    from_db_string_local first_day first_day second_of
      (to_db_string_local first_day first_day second_of (pos after_one))
    ≡ ok (pos after_one)
from_db_string_local-to_db_string_local_example =
    from_db_string_local-to_db_string_local first_day first_day second_of after_one
      after_one-IsLocal after_one-ne-midnight

midnight-IsLocal : IsLocal first_day first_day second_of (0 / 1000000)
midnight-IsLocal = record {
  calendar = record {
    years = 70;
    months = 0;
    day = 1;
    hour = 0;
    minute = 0;
    second = 0;
    few_years = omega arith;
    few_months = omega arith;
    few_days = omega arith;
    few_hours = omega arith;
    few_minutes = omega arith;
    few_seconds = omega arith;
  };
  isdst = pos 0;
  broken = refl;
  made = refl;
}

round_day-midnight : round_day first_day first_day second_of (pos 0) ≡ pos 0
unfolding round_day
round_day-midnight = refl

from_db_string_local-midnight_example :
    from_db_string_local first_day first_day second_of
      (to_db_string_local first_day first_day second_of (pos 0))
    ≡ ok (make_date_time first_day first_day second_of 0 0 0 0 0 0 0)
from_db_string_local-midnight_example =
    from_db_string_local-midnight first_day first_day second_of 0 midnight-IsLocal refl
      round_day-midnight

-- The clock is that of UTC.
no_offset : timezone_offset first_day first_day second_of ≡ ok (pos 0)
unfolding timezone_offset from_db_string_local split split_string split_rounds find starts_with
    next_place push_piece put_piece read_numbers read_date read_clock read_seconds unsigned stol
    number signed value_of is_space is_digit to_unsigned from_numbers make_date_time
no_offset = refl

from_db_string-to_db_string_example :
    (to_db_string first_day first_day second_of (λ m. m) (pos after_one)
      >>= from_db_string first_day first_day second_of (λ m. m))
    ≡ ok (pos after_one)
unfolding ◌+ℤ◌ ◌-ℤ◌
from_db_string-to_db_string_example =
    from_db_string-to_db_string first_day first_day second_of (λ m. m) (pos after_one) (pos 0)
      after_one (λ m small. refl) no_offset refl (omega arith) (omega arith) (omega arith)
      (omega arith) after_one-IsLocal after_one-ne-midnight
