-- ===== src/Time/DateText.antt =====
-- What time/DateTime.cpp uses of the C library's texts: the conversions of `snprintf` and `stol`.
pub mod Digits
use mysql_connect_pool.Prelude.{
  ℕ, zero, suc, ◌+◌, ◌-◌, ◌*◌, ◌^◌, Bool, true, false, ◌&&◌, ◌||◌, List, [], ◌∷◌, ◌++◌, ltb, leb,
  ◌==◌, if◌then◌else◌, length, replicate,
}
use mysql_connect_pool.Prelude.Int.{ℤ, pos, negsuc}
use mysql_connect_pool.Connector.Sql.{decimal}

-- A field of at least this width: `%02d` and `%06d` put zeros behind the sign, `%4d` blanks before it.
unfoldable pub zeros : ℕ → ℤ → List ℕ
unfolding decimal
zeros width (pos n) =
    let digits = decimal (suc n) n in replicate (width - length digits) b'0' ++ digits
zeros width (negsuc n) =
    let digits = decimal (suc (suc n)) (suc n) in
    b'-' ∷ (replicate (width - suc (length digits)) b'0' ++ digits)

unfoldable pub blanks : ℕ → ℤ → List ℕ
unfolding decimal
blanks width (pos n) =
    let digits = decimal (suc n) n in replicate (width - length digits) b' ' ++ digits
blanks width (negsuc n) =
    let digits = decimal (suc (suc n)) (suc n) in
    replicate (width - suc (length digits)) b' ' ++ (b'-' ∷ digits)

-- How a conversion ends: with a value, by throwing `std::invalid_argument` or `std::out_of_range`, by
-- a read outside an array, or out of the fuel of the model.
pub data Parsed {ℓ} (A : Type ℓ) : Type ℓ where
  ok : A → Parsed A
  invalid_argument out_of_range undefined stuck : Parsed A

infixl 5 ◌>>=◌
abbrev pub ◌>>=◌ {ℓ κ} : {A : Type ℓ} {B : Type κ} → Parsed A → (A → Parsed B) → Parsed B
ok a >>= f = f a
invalid_argument >>= f = invalid_argument
out_of_range >>= f = out_of_range
undefined >>= f = undefined
stuck >>= f = stuck

unfoldable pub is_space : ℕ → Bool
is_space c = c == b' ' || (leb 9 c && leb c 13)

unfoldable pub is_digit : ℕ → Bool
is_digit c = leb b'0' c && leb c b'9'

-- The digits at the head of a text, read behind others of this value.
unfoldable pub value_of : ℕ → List ℕ → ℕ
unfolding is_digit
value_of v [] = v
value_of v (c ∷ s) = if is_digit c then value_of (v * 10 + (c - b'0')) s else v

-- A value and its sign as a `long`.
unfoldable pub signed : Bool → ℕ → Parsed ℤ
signed false n = if ltb n (2 ^ 63) then ok (pos n) else out_of_range
signed true zero = ok (pos 0)
signed true (suc n) = if ltb n (2 ^ 63) then ok (negsuc n) else out_of_range

unfoldable pub number : Bool → List ℕ → Parsed ℤ
number negative [] = invalid_argument
number negative (c ∷ s) =
    if is_digit c then signed negative (value_of 0 (c ∷ s)) else invalid_argument

-- `std::stol`: blanks, a sign, digits.
unfoldable pub stol : List ℕ → Parsed ℤ
stol [] = invalid_argument
stol (c ∷ s) =
    let behind = stol s in
    if is_space c
    then behind
    else if c == b'-'
    then number true s
    else if c == b'+'
    then number false s
    else number false (c ∷ s)
