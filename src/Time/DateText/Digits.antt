-- ===== src/Time/DateText/Digits.antt =====
-- Numbers written with `snprintf` and read with `stol`.
use mysql_connect_pool.Prelude.{
  subst, ℕ, zero, suc, ◌+◌, ◌-◌, ◌*◌, ◌/◌, ◌%◌, ◌^◌, ◌≤◌, ◌<◌, ◌≡◌, refl, ◌∙◌, true, false, List,
  [], ◌∷◌, ◌++◌, arith, ltb, ◌==◌, length, replicate, length-append, length-replicate, lt→ltb,
  Bool-cases, inl, inr, ltb→lt,
}
use mysql_connect_pool.Prelude.Int.{pos}
use mysql_connect_pool.Connector.Sql.{decimal}
use mysql_connect_pool.Utils.Split.Pieces.{Free}
use mysql_connect_pool.Time.DateText.{
  zeros, blanks, ok, is_space, is_digit, value_of, signed, number, stol,
}

abbrev pub AllDigits : List ℕ → Type 0
AllDigits [] = Unit
AllDigits (c ∷ s) = (is_digit c ≡ true) × AllDigits s

AllDigits-append : (s t : List ℕ) → AllDigits s → AllDigits t → AllDigits (s ++ t)
AllDigits-append [] t a b = b
AllDigits-append (c ∷ s) t (e, a) b = (e, AllDigits-append s t a b)

AllDigits-replicate : (k : ℕ) → AllDigits (replicate k b'0')
unfolding is_digit
AllDigits-replicate zero = tt
AllDigits-replicate (suc k) = (refl, AllDigits-replicate k)

digit : (d : ℕ) → d < 10 → is_digit (d + b'0') ≡ true
unfolding is_digit
digit d h = ground arith

decimal-AllDigits : (fuel n : ℕ) → AllDigits (decimal fuel n)
unfolding decimal
decimal-AllDigits zero n = tt
decimal-AllDigits (suc fuel) n = elim (Bool-cases (ltb n 10)) [
  | inl e ↦ rw e (digit n (ltb→lt n 10 e), tt)
  | inr e ↦ rw e (
      AllDigits-append (decimal fuel (n / 10)) _ (decimal-AllDigits fuel (n / 10))
        (digit (n % 10) (omega arith), tt))
]

value_of-append :
    (s t : List ℕ) (v : ℕ) → AllDigits s → value_of v (s ++ t) ≡ value_of (value_of v s) t
unfolding value_of
value_of-append [] t v a = refl
value_of-append (c ∷ s) t v (e, a) = rw e (value_of-append s t (v * 10 + (c - b'0')) a)

value_of-replicate : (k : ℕ) → value_of 0 (replicate k b'0') ≡ 0
unfolding value_of is_digit
value_of-replicate zero = refl
value_of-replicate (suc k) = value_of-replicate k

value_of-digit : (v d : ℕ) → d < 10 → value_of v ((d + b'0') ∷ []) ≡ v * 10 + d
unfolding value_of
value_of-digit v d h = rw (digit d h) (omega arith)

value_of-decimal : (fuel n : ℕ) → n < fuel → value_of 0 (decimal fuel n) ≡ n
unfolding decimal
value_of-decimal zero n h = absurd (omega arith)
value_of-decimal (suc fuel) n h = elim (Bool-cases (ltb n 10)) [
  | inl e ↦ rw (e, value_of-digit 0 n (ltb→lt n 10 e)) (omega arith)
  | inr e ↦
      let front = value_of-decimal fuel (n / 10) (ground arith) in
      rw
        (
          e,
          value_of-append (decimal fuel (n / 10)) ((n % 10 + b'0') ∷ []) 0
              (decimal-AllDigits fuel (n / 10)),
          front,
          value_of-digit (n / 10) (n % 10) (omega arith),
        )
        (omega arith)
]

digit-is_space : (c : ℕ) → is_digit c ≡ true → is_space c ≡ false
unfolding is_digit is_space
digit-is_space c e = ground arith

digit-minus : (c : ℕ) → is_digit c ≡ true → (c == b'-') ≡ false
unfolding is_digit
digit-minus c e = ground arith

digit-plus : (c : ℕ) → is_digit c ≡ true → (c == b'+') ≡ false
unfolding is_digit
digit-plus c e = ground arith

signed-small : (n : ℕ) → n < 2 ^ 63 → signed false n ≡ ok (pos n)
unfolding signed
signed-small n h = rw (lt→ltb n (2 ^ 63) h) refl

-- A text of digits is read whole.
stol-AllDigits :
    (c : ℕ) (s : List ℕ)
    → AllDigits (c ∷ s)
    → value_of 0 (c ∷ s) < 2 ^ 63
    → stol (c ∷ s) ≡ ok (pos (value_of 0 (c ∷ s)))
unfolding stol number
stol-AllDigits c s (e, a) h =
    rw (digit-is_space c e, digit-minus c e, digit-plus c e, e)
      (signed-small (value_of 0 (c ∷ s)) h)

decimal-some : (fuel n : ℕ) → 0 < length (decimal (suc fuel) n)
unfolding decimal
decimal-some fuel n = elim (Bool-cases (ltb n 10)) [
  | inl e ↦ rw e (omega arith)
  | inr e ↦ rw (e, length-append) (omega arith)
]

-- So many digits are enough.
length-decimal : (k fuel n : ℕ) → n < 10 ^ suc k → length (decimal fuel n) ≤ suc k
unfolding decimal
length-decimal k zero n h = omega arith
length-decimal zero (suc fuel) n h = rw (lt→ltb n 10 h) (omega arith)
length-decimal (suc k) (suc fuel) n h = elim (Bool-cases (ltb n 10)) [
  | inl e ↦ rw e (omega arith)
  | inr e ↦
      let scaled : 10 ^ suc (suc k) ≡ 10 * 10 ^ suc k = grind arith in
      let front = length-decimal k fuel (n / 10) (omega arith) in
      rw (e, length-append) (omega arith)
]

pow_ten-some : (k : ℕ) → 1 ≤ 10 ^ k
pow_ten-some zero = omega arith
pow_ten-some (suc k) =
    let scaled : 10 ^ suc k ≡ 10 * 10 ^ k = grind arith in let front = pow_ten-some k in omega arith

length-decimal-le : (k fuel n : ℕ) → 10 ^ k ≤ n → n < fuel → suc k ≤ length (decimal fuel n)
unfolding decimal
length-decimal-le k zero n h f = absurd (omega arith)
length-decimal-le zero (suc fuel) n h f = decimal-some fuel n
length-decimal-le (suc k) (suc fuel) n h f = elim (Bool-cases (ltb n 10)) [
  | inl e ↦
      let scaled : 10 ^ suc k ≡ 10 * 10 ^ k = grind arith in
      let some_ten = pow_ten-some k in let small = ltb→lt n 10 e in absurd (omega arith)
  | inr e ↦
      let scaled : 10 ^ suc k ≡ 10 * 10 ^ k = grind arith in
      let front = length-decimal-le k fuel (n / 10) (omega arith) (ground arith) in
      rw (e, length-append) (omega arith)
]

-- A text of digits, not empty, that reads back as n.
pub record IsNumber (n : ℕ) (s : List ℕ) : Type 0 where
  pub some_digits : 0 < length s
  pub all_digits : AllDigits s
  pub read : stol s ≡ ok (pos n)

stol-value :
    (s : List ℕ) (n : ℕ) → 0 < length s → AllDigits s → value_of 0 s ≡ n → n < 2 ^ 63 → IsNumber n s
stol-value [] n l a e h = absurd (omega arith)
stol-value (c ∷ s) n l a e h = record {
  some_digits = l;
  all_digits = a;
  read = subst (λ m. stol (c ∷ s) ≡ ok (pos m)) e (stol-AllDigits c s a (rw e h));
}

pub decimal-IsNumber : (n : ℕ) → n < 2 ^ 63 → IsNumber n (decimal (suc n) n)
decimal-IsNumber n h =
    stol-value (decimal (suc n) n) n (decimal-some n n) (decimal-AllDigits (suc n) n)
      (value_of-decimal (suc n) n (omega arith)) h

pub zeros-IsNumber : (w n : ℕ) → n < 2 ^ 63 → IsNumber n (zeros w (pos n))
unfolding zeros
zeros-IsNumber w n h =
    let digits = decimal (suc n) n in
    let front = replicate (w - length digits) b'0' in
    let some_digits = decimal-some n n in
    stol-value (front ++ digits) n (rw length-append (omega arith))
      (AllDigits-append front digits (AllDigits-replicate (w - length digits))
        (decimal-AllDigits (suc n) n))
      (value_of-append front digits 0 (AllDigits-replicate (w - length digits))
        ∙ rw (value_of-replicate (w - length digits)) (value_of-decimal (suc n) n (omega arith)))
      h

pub length-zeros : (k n : ℕ) → n < 10 ^ suc k → length (zeros (suc k) (pos n)) ≡ suc k
unfolding zeros
length-zeros k n h =
    let digits = decimal (suc n) n in
    let few = length-decimal k (suc n) n h in rw (length-append, length-replicate) (omega arith)

-- A number of so many digits needs no blanks.
pub blanks-IsNumber : (k n : ℕ) → 10 ^ k ≤ n → n < 2 ^ 63 → IsNumber n (blanks (suc k) (pos n))
unfolding blanks
blanks-IsNumber k n b h =
    let many = length-decimal-le k (suc n) n b (omega arith) in
    let full : suc k - length (decimal (suc n) n) ≡ 0 = omega arith in
    rw full (decimal-IsNumber n h)

other_byte : (d c : ℕ) → is_digit d ≡ false → is_digit c ≡ true → (d == c) ≡ false
other_byte d c n e = elim (Bool-cases (d == c)) [
  | inl q ↦ let same : d ≡ c = ground arith in absurd (cc)
  | inr q ↦ q
]

-- A byte that is no digit stands in no number.
pub AllDigits-Free : (d : ℕ) (s : List ℕ) → is_digit d ≡ false → AllDigits s → Free d s
AllDigits-Free d [] n a = tt
AllDigits-Free d (c ∷ s) n (e, a) = (other_byte d c n e, AllDigits-Free d s n a)
