-- ===== src/Time/DateTime/Offset.antt =====
-- `after` for whole seconds, `toDbString` and `fromDbString` (time/DateTime.cpp). `to_double` is the
-- double next to an integer; the sum and the product of doubles are rounded by it too.
use mysql_connect_pool.Prelude.{ℕ, ◌/◌, ◌^◌, ◌<◌, ◌≤◌, ◌≡◌, ◌≢◌, refl, ap, sym, ◌∙◌, List, arith}
use mysql_connect_pool.Prelude.Int.{ℤ, pos, negsuc, ◌+ℤ◌, ◌-ℤ◌}
use mysql_connect_pool.Time.DateText.{Parsed, ok, ◌>>=◌}
use mysql_connect_pool.Time.DateTime.{
  Tm, times_million, round_day, to_db_string_local, from_db_string_local, timezone_offset,
}
use mysql_connect_pool.Time.DateTime.RoundTrip.{IsLocal, from_db_string_local-to_db_string_local}

unfoldable pub after : (ℤ → ℤ) → ℤ → ℤ → ℤ
after to_double t second = to_double (to_double t +ℤ to_double (times_million second))

abbrev pub minus : ℤ → ℤ
minus n = pos 0 -ℤ n

module _ (localtime_r gmtime_r : ℤ → Tm) (mktime : Tm → ℤ) (to_double : ℤ → ℤ) where
  unfoldable pub to_db_string : ℤ → Parsed (List ℕ)
  to_db_string t = timezone_offset localtime_r gmtime_r mktime >>= λ offset.
      ok (to_db_string_local localtime_r gmtime_r mktime (after to_double t (minus offset)))

  unfoldable pub from_db_string : List ℕ → Parsed ℤ
  from_db_string datetime = from_db_string_local localtime_r gmtime_r mktime datetime >>= λ t.
      timezone_offset localtime_r gmtime_r mktime >>= λ offset. ok (after to_double t offset)

-- A double holds every integer of at most 53 bits.
abbrev pub IsSmall : ℤ → Type 0
IsSmall (pos n) = n ≤ 2 ^ 53
IsSmall (negsuc n) = n < 2 ^ 53

add-minus : (t o : ℤ) → (t +ℤ times_million (minus o)) +ℤ times_million o ≡ t
unfolding ◌+ℤ◌ ◌-ℤ◌
add-minus (pos n) (pos o) = ground arith
add-minus (pos n) (negsuc o) = ground arith
add-minus (negsuc n) (pos o) = ground arith
add-minus (negsuc n) (negsuc o) = ground arith

after-IsSmall :
    (to_double : ℤ → ℤ) (t second : ℤ)
    → ((m : ℤ) → IsSmall m → to_double m ≡ m)
    → IsSmall t
    → IsSmall (times_million second)
    → IsSmall (t +ℤ times_million second)
    → after to_double t second ≡ t +ℤ times_million second
unfolding after
after-IsSmall to_double t second exact a b c =
    rw (exact t a, exact (times_million second) b, exact (t +ℤ times_million second) c) refl

-- `fromDbString` reads a time back from the text of `toDbString`, when the time, the offset of the
-- time zone and their difference have at most 53 bits in microseconds, and the difference, from the
-- epoch on, is a time that the C library knows and no local midnight.
pub from_db_string-to_db_string :
    (localtime_r gmtime_r : ℤ → Tm) (mktime : Tm → ℤ) (to_double : ℤ → ℤ) (t offset : ℤ) (n : ℕ)
    → ((m : ℤ) → IsSmall m → to_double m ≡ m)
    → timezone_offset localtime_r gmtime_r mktime ≡ ok offset
    → t +ℤ times_million (minus offset) ≡ pos n
    → IsSmall t
    → IsSmall (times_million offset)
    → IsSmall (times_million (minus offset))
    → IsSmall (pos n)
    → IsLocal localtime_r gmtime_r mktime (n / 1000000)
    → round_day localtime_r gmtime_r mktime (pos n) ≢ pos n
    → (to_db_string localtime_r gmtime_r mktime to_double t
        >>= from_db_string localtime_r gmtime_r mktime to_double)
      ≡ ok t
unfolding to_db_string from_db_string
from_db_string-to_db_string localtime_r gmtime_r mktime to_double t offset n exact zone shifted a b
      c d law h =
    let back : pos n +ℤ times_million offset ≡ t =
      ap (λ m. m +ℤ times_million offset) (sym shifted) ∙ add-minus t offset in
    let there : after to_double t (minus offset) ≡ pos n =
      after-IsSmall to_double t (minus offset) exact a c (rw shifted d) ∙ shifted in
    let again : after to_double (pos n) offset ≡ t =
      after-IsSmall to_double (pos n) offset exact d b (rw back a) ∙ back in
    let read = from_db_string_local-to_db_string_local localtime_r gmtime_r mktime n law h in
    rw (zone, there, read, zone, again) refl
