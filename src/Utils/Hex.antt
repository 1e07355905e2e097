-- ===== src/Utils/Hex.antt =====
-- `hexToBinaryString` and `hexToBinaryVector` (utils/utils.cpp). A `char` is its byte, 0 to 255:
-- a byte above 127 is a negative `char`, and fails the three range tests as it does here.
pub mod RoundTrip
use mysql_connect_pool.Prelude.{
  ℕ, suc, ◌+◌, ◌-◌, ◌*◌, ◌%◌, ◌≡◌, Bool, true, false, ◌&&◌, Option, none, some, List, [], ◌∷◌, leb,
  ◌==◌, if◌then◌else◌, length,
}

-- The value of one digit; `none` is the early `return ""`.
pub hex_digit : ℕ → Option ℕ
hex_digit c =
    if leb b'0' c && leb c b'9'
    then some (c - b'0')
    else if leb b'a' c && leb c b'f'
    then some (c - b'a' + 10)
    else if leb b'A' c && leb c b'F'
    then some (c - b'A' + 10)
    else none

-- `ret[i] = c1 * 16 + c2`, stored in a byte; `more` is what the later rounds leave behind.
put_byte : Option ℕ → Option ℕ → Option (List ℕ) → Option (List ℕ)
put_byte (some c1) (some c2) (some more) = some ((c1 * 16 + c2) % 256 ∷ more)
put_byte _ _ _ = none

-- The rounds of the loop. The last, unpaired digit is never reached: see `hex_to_binary_string`.
pub hex_rounds : List ℕ → Option (List ℕ)
unfolding hex_digit put_byte
hex_rounds [] = some []
hex_rounds (c ∷ []) = some []
hex_rounds (c1 ∷ c2 ∷ rest) = put_byte (hex_digit c1) (hex_digit c2) (hex_rounds rest)

abbrev or_empty : Option (List ℕ) → List ℕ
or_empty none = []
or_empty (some bytes) = bytes

-- `none` is the failed assertion `length % 2 == 0`.
pub hex_to_binary_string : List ℕ → Option (List ℕ)
unfolding hex_rounds
hex_to_binary_string ptr = if length ptr % 2 == 0 then some (or_empty (hex_rounds ptr)) else none

-- The same loop over a `std::vector<char>`.
pub hex_to_binary_vector : List ℕ → Option (List ℕ)
unfolding hex_rounds
hex_to_binary_vector ptr = if length ptr % 2 == 0 then some (or_empty (hex_rounds ptr)) else none
