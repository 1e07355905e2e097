-- ===== src/Time/DateTime/Reads.antt =====
-- What `fromDbStringLocal` (time/DateTime.cpp) reads in a text that is written with its separators.
use mysql_connect_pool.Prelude.{
  ℕ, ◌%◌, ◌^◌, ◌<◌, ◌≡◌, refl, false, List, [], ◌∷◌, arith, length, append-nil,
}
use mysql_connect_pool.Utils.Split.Join.{join}
use mysql_connect_pool.Utils.Split.Pieces.{IsPiece, ArePieces, split_string-join}
use mysql_connect_pool.Time.DateText.{ok, ◌>>=◌, is_digit}
use mysql_connect_pool.Time.DateText.Digits.{IsNumber, AllDigits-Free}
use mysql_connect_pool.Time.DateTime.{
  to_unsigned, Numbers, no_numbers, split, unsigned, six_digits, read_seconds, read_clock,
  read_date, read_numbers,
}

split-join :
    (d : ℕ) (p : List ℕ) (v : List (List ℕ))
    → ArePieces d (p ∷ v)
    → split d (join (d ∷ []) (p ∷ v)) ≡ ok (p ∷ v)
unfolding split
split-join d p v h = rw (split_string-join d p v h) refl

split-one : (d : ℕ) (p : List ℕ) → IsPiece d p → split d p ≡ ok (p ∷ [])
unfolding join
split-one d p i = split-join d p [] (i, tt)

unsigned-IsNumber : (n : ℕ) (s : List ℕ) → IsNumber n s → n < 2 ^ 32 → unsigned s ≡ ok n
unfolding unsigned to_unsigned
unsigned-IsNumber n s i h = let e : n % 2 ^ 32 ≡ n = omega arith in rw (i.read, e) refl

IsNumber-IsPiece : (d n : ℕ) (s : List ℕ) → is_digit d ≡ false → IsNumber n s → IsPiece d s
IsNumber-IsPiece d n s h i = (i.some_digits, AllDigits-Free d s h i.all_digits)

six_digits_of : (s : List ℕ) → length s ≡ 6 → six_digits s ≡ s
unfolding six_digits
six_digits_of s h = rw h (append-nil s)

-- The seconds, without and with a fraction of six digits.
pub read_seconds-whole :
    (n : Numbers) (s : ℕ) (S : List ℕ)
    → IsNumber s S
    → s < 2 ^ 32
    → (split b'.' S >>= read_seconds n) ≡ ok (record n { second = s })
unfolding read_seconds is_digit
read_seconds-whole n s S i h =
    rw (split-one b'.' S (IsNumber-IsPiece b'.' s S refl i), unsigned-IsNumber s S i h) refl

pub read_seconds-fraction :
    (n : Numbers) (s u : ℕ) (S U : List ℕ)
    → IsNumber s S
    → s < 2 ^ 32
    → IsNumber u U
    → u < 2 ^ 32
    → length U ≡ 6
    → (split b'.' (join (b'.' ∷ []) (S ∷ U ∷ [])) >>= read_seconds n)
      ≡ ok (record n { second = s; micro_second = u })
unfolding read_seconds is_digit
read_seconds-fraction n s u S U i h j k l =
    rw
      (
        split-join b'.' S (U ∷ [])
            (IsNumber-IsPiece b'.' s S refl i, (IsNumber-IsPiece b'.' u U refl j, tt)),
        unsigned-IsNumber s S i h,
        six_digits_of U l,
        unsigned-IsNumber u U j k,
      )
      refl

pub read_clock-join :
    (n : Numbers) (h m : ℕ) (H M T : List ℕ)
    → IsNumber h H
    → h < 2 ^ 32
    → IsNumber m M
    → m < 2 ^ 32
    → IsPiece b':' T
    → (split b':' (join (b':' ∷ []) (H ∷ M ∷ T ∷ [])) >>= read_clock n)
      ≡ (split b'.' T >>= read_seconds (record n { hour = h; minute = m }))
unfolding read_clock is_digit
read_clock-join n h m H M T i a j b t =
    rw
      (
        split-join b':' H (M ∷ T ∷ [])
            (IsNumber-IsPiece b':' h H refl i, (IsNumber-IsPiece b':' m M refl j, (t, tt))),
        unsigned-IsNumber h H i a,
        unsigned-IsNumber m M j b,
      )
      refl

pub read_date-join :
    (y m d : ℕ) (Y M D time : List ℕ)
    → IsNumber y Y
    → y < 2 ^ 32
    → IsNumber m M
    → m < 2 ^ 32
    → IsNumber d D
    → d < 2 ^ 32
    → (split b'-' (join (b'-' ∷ []) (Y ∷ M ∷ D ∷ [])) >>= read_date time)
      ≡ (split b':' time >>= read_clock (record no_numbers { year = y; month = m; day = d }))
unfolding read_date is_digit
read_date-join y m d Y M D time i a j b k c =
    rw
      (
        split-join b'-' Y (M ∷ D ∷ []) (
          IsNumber-IsPiece b'-' y Y refl i,
          (IsNumber-IsPiece b'-' m M refl j, (IsNumber-IsPiece b'-' d D refl k, tt)),
        ),
        unsigned-IsNumber y Y i a,
        unsigned-IsNumber m M j b,
        unsigned-IsNumber d D k c,
      )
      refl

pub read_numbers-join :
    (date time : List ℕ)
    → IsPiece b' ' date
    → IsPiece b' ' time
    → (split b' ' (join (b' ' ∷ []) (date ∷ time ∷ [])) >>= read_numbers)
      ≡ (split b'-' date >>= read_date time)
unfolding read_numbers
read_numbers-join date time i j = rw (split-join b' ' date (time ∷ []) (i, (j, tt))) refl

-- A date with no time of day is not read at all.
pub read_numbers-date :
    (date : List ℕ) → IsPiece b' ' date → (split b' ' date >>= read_numbers) ≡ ok no_numbers
unfolding read_numbers
read_numbers-date date i = rw (split-one b' ' date i) refl
