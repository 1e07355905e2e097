-- ===== src/Utils/Hex/RoundTrip.antt =====
-- The decoder of utils/utils.cpp against an encoder written for the purpose.
use mysql_connect_pool.Prelude.{
  ℕ, ◌+◌, ◌/◌, ◌%◌, ◌<◌, ◌≡◌, refl, Bool, some, List, [], ◌∷◌, ltb, if◌then◌else◌, length, arith,
}
use mysql_connect_pool.Utils.Hex.{hex_digit, hex_rounds, hex_to_binary_string}

-- The digit for a value below 16, in lower or in upper case.
abbrev pub digit_of : Bool → ℕ → ℕ
digit_of upper n = if ltb n 10 then n + b'0' else (if upper then n + 55 else n + 87)

-- The usual hexadecimal text of some bytes.
abbrev pub to_hex : Bool → List ℕ → List ℕ
to_hex upper [] = []
to_hex upper (x ∷ xs) = digit_of upper (x / 16) ∷ digit_of upper (x % 16) ∷ to_hex upper xs

abbrev pub IsBytes : List ℕ → Type 0
IsBytes [] = Unit
IsBytes (x ∷ xs) = (x < 256) × IsBytes xs

hex_digit-digit_of : (upper : Bool) (n : ℕ) → n < 16 → hex_digit (digit_of upper n) ≡ some n
unfolding hex_digit
hex_digit-digit_of upper n h = ground arith

length-to_hex : (upper : Bool) (xs : List ℕ) → length (to_hex upper xs) % 2 ≡ 0
length-to_hex upper [] = refl
length-to_hex upper (x ∷ xs) = omega (arith, length-to_hex upper xs)

hex_rounds-to_hex :
    (upper : Bool) (xs : List ℕ) → IsBytes xs → hex_rounds (to_hex upper xs) ≡ some xs
unfolding hex_rounds
hex_rounds-to_hex upper [] h = refl
hex_rounds-to_hex upper (x ∷ xs) h = ground (
  arith,
  hex_digit-digit_of upper (x / 16) (omega arith),
  hex_digit-digit_of upper (x % 16) (omega arith),
  hex_rounds-to_hex upper xs h.1,
)

-- Decoding the hexadecimal text of a list of bytes, in lower or upper case, gives back the bytes.
pub hex_to_binary_string-to_hex :
    (upper : Bool) (xs : List ℕ) → IsBytes xs → hex_to_binary_string (to_hex upper xs) ≡ some xs
unfolding hex_to_binary_string
hex_to_binary_string-to_hex upper xs h =
    ground (arith, length-to_hex upper xs, hex_rounds-to_hex upper xs h)
