-- ===== src/Db/ArrayParser.antt =====
-- db/ArrayParser.cpp, the reader of array fields, and `Field::asArray` (db/Field.h). A C string is
-- the list of its bytes before the terminating zero; a pointer into it is the list from there on,
-- or, inside a token, the number of bytes from the token's begin.
pub mod Progress
pub mod Strings
pub mod RoundTrip
use mysql_connect_pool.Prelude.{
  ℕ, zero, suc, ◌+◌, ◌-◌, Bool, true, false, not, ◌&&◌, ◌||◌, Option, none, some, List, [], ◌∷◌,
  ltb, ◌==◌, if◌then◌else◌, take, drop, length, ◌++◌,
}

pub data Juncture : Type 0 where
  row_start row_end null_value string_value done : Juncture

-- How a call ends: with a value, by throwing `ArgumentError`, by a read past the terminating zero,
-- which is undefined, or by a failed assertion. `stuck` is a model loop that ran out of rounds.
pub data Parsed {ℓ} (A : Type ℓ) : Type ℓ where
  ok : A → Parsed A
  argument_error overrun assertion stuck : Parsed A

infixl 5 ◌>>=◌
abbrev pub ◌>>=◌ {ℓ κ} : {A : Type ℓ} {B : Type κ} → Parsed A → (A → Parsed B) → Parsed B
ok a >>= f = f a
argument_error >>= f = argument_error
overrun >>= f = overrun
assertion >>= f = assertion
stuck >>= f = stuck

-- The loop of `scan_single_quoted_string`, `here` at byte n: the offset after the closing quote.
unfoldable pub scan_single : ℕ → List ℕ → Parsed ℕ
scan_single n [] = argument_error
scan_single n (c ∷ []) = if c == b'\'' then ok (n + 1) else argument_error
scan_single n (c ∷ d ∷ rest) =
    let past = scan_single (n + 2) rest in
    let next = scan_single (n + 1) (d ∷ rest) in
    if c == b'\''
    then (if d == b'\'' then past else ok (n + 1))
    else (if c == b'\\' then past else next)

-- The loop of `scan_double_quoted_string`.
unfoldable pub scan_double : ℕ → List ℕ → Parsed ℕ
scan_double n [] = argument_error
scan_double n (c ∷ []) = if c == b'"' then ok (n + 1) else argument_error
scan_double n (c ∷ d ∷ rest) =
    let past = scan_double (n + 2) rest in
    let next = scan_double (n + 1) (d ∷ rest) in
    if c == b'"' then ok (n + 1) else (if c == b'\\' then past else next)

-- The `case` labels of the two loops that drop an escape. The byte that is kept is the first one.
unfoldable pub unescape_single : List ℕ → List ℕ
unescape_single [] = []
unescape_single (c ∷ []) = c ∷ []
unescape_single (c ∷ d ∷ rest) =
    let skip = unescape_single rest in
    let keep = unescape_single (d ∷ rest) in if c == b'\'' || c == b'\\' then c ∷ skip else c ∷ keep

unfoldable pub unescape_double : List ℕ → List ℕ
unescape_double [] = []
unescape_double (c ∷ []) = c ∷ []
unescape_double (c ∷ d ∷ rest) =
    let skip = unescape_double rest in
    let keep = unescape_double (d ∷ rest) in if c == b'\\' then c ∷ skip else c ∷ keep

-- `*p`
abbrev pub byte_at : List ℕ → ℕ
byte_at [] = 0
byte_at (c ∷ cs) = c

abbrev pub assert : Bool → Parsed (Unit {0})
assert b = if b then ok tt else assertion

-- The text between the quotes of a token of `size` bytes, after the three assertions.
unfoldable pub between_quotes : ℕ → List ℕ → ℕ → Parsed (List ℕ)
between_quotes quote begin size =
    assert (ltb 1 size && (byte_at begin == quote && byte_at (drop (size - 1) begin) == quote))
    >>= λ _. ok (take (size - 2) (drop 1 begin))

unfoldable pub parse_single_quoted_string : List ℕ → ℕ → Parsed (List ℕ)
unfolding between_quotes unescape_single
parse_single_quoted_string begin size =
    between_quotes b'\'' begin size >>= λ inner. ok (unescape_single inner)

unfoldable pub parse_double_quoted_string : List ℕ → ℕ → Parsed (List ℕ)
unfolding between_quotes unescape_double
parse_double_quoted_string begin size =
    between_quotes b'"' begin size >>= λ inner. ok (unescape_double inner)

-- The bytes at which an unquoted string ends.
abbrev pub is_end : ℕ → Bool
is_end c = c == b',' || (c == b';' || c == b'}')

-- The loop of `scan_unquoted_string`: the terminating zero does not stop it.
unfoldable pub scan_unquoted : ℕ → List ℕ → Parsed ℕ
scan_unquoted n [] = overrun
scan_unquoted n (c ∷ cs) = if is_end c then ok n else scan_unquoted (n + 1) cs

abbrev pub null_text : List ℕ
null_text = b'N' ∷ b'U' ∷ b'L' ∷ b'L' ∷ []

unfoldable pub same_text : List ℕ → List ℕ → Bool
same_text [] [] = true
same_text (a ∷ as') (b ∷ bs) = a == b && same_text as' bs
same_text _ _ = false

-- What was found, its text, and how many bytes it takes.
pub record Token : Type 0 where
  pub found : Juncture
  pub value : List ℕ
  pub size : ℕ

abbrev token : Juncture → List ℕ → ℕ → Token
token j v n = record { found = j; value = v; size = n }

-- The default case: an unquoted string, or NULL.
unfoldable pub unquoted_token : List ℕ → Parsed Token
unfolding scan_unquoted same_text
unquoted_token pos = assert (not (byte_at pos == b'\'') && not (byte_at pos == b'"')) >>= λ _.
    scan_unquoted 0 pos >>= λ n.
    if same_text (take n pos) null_text
    then ok (token null_value [] n)
    else ok (token string_value (take n pos) n)

unfoldable pub single_token : List ℕ → Parsed Token
unfolding scan_single parse_single_quoted_string
single_token pos = scan_single 1 (drop 1 pos) >>= λ n.
    parse_single_quoted_string pos n >>= λ v. ok (token string_value v n)

unfoldable pub double_token : List ℕ → Parsed Token
unfolding scan_double parse_double_quoted_string
double_token pos = scan_double 1 (drop 1 pos) >>= λ n.
    parse_double_quoted_string pos n >>= λ v. ok (token string_value v n)

-- The `switch (*pos_)`
unfoldable pub read_token : List ℕ → Parsed Token
unfolding unquoted_token single_token double_token
read_token [] = ok (token done [] 0)
read_token (c ∷ cs) =
    if c == b'{'
    then ok (token row_start [] 1)
    else if c == b'}'
    then ok (token row_end [] 1)
    else if c == b'\''
    then single_token (c ∷ cs)
    else if c == b'"'
    then double_token (c ∷ cs)
    else unquoted_token (c ∷ cs)

-- `if (*end == ',' || *end == ';') end++`
unfoldable pub skip_separator : List ℕ → List ℕ
skip_separator [] = []
skip_separator (c ∷ cs) = if c == b',' || c == b';' then cs else c ∷ cs

-- `pos_`, null for an absent value.
abbrev pub Position : Type 0
Position = Option (List ℕ)

abbrev finish : List ℕ → Token → Parsed (Juncture × List ℕ × Position)
finish pos t = ok (t.found, t.value, some (skip_separator (drop t.size pos)))

-- `getNext`: the pair that it returns, and `pos_` after it.
unfoldable pub get_next : Position → Parsed (Juncture × List ℕ × Position)
unfolding read_token skip_separator
get_next none = ok (done, [], none)
get_next (some pos) = read_token pos >>= finish pos

-- What `asArray` adds for one token, with the reading of a value by `>>` as an argument.
module _ {T : Type 0} (read : List ℕ → T) where
  abbrev element : Juncture → List ℕ → List (Option T)
  element string_value v = some (read v) ∷ []
  element null_value v = none ∷ []
  element _ v = []

  -- `Field::asArray` with a number of rounds; `ret` is what it has so far.
  unfoldable pub as_array_rounds : ℕ → Position → List (Option T) → Parsed (List (Option T))
  unfolding get_next
  as_array_rounds zero pos ret = stuck
  as_array_rounds (suc n) pos ret = elim (get_next pos) [
    | ok (done, v, next) ↦ ok ret
    | ok (j, v, next) ↦ as_array_rounds n next (ret ++ element j v)
    | argument_error ↦ argument_error
    | overrun ↦ overrun
    | assertion ↦ assertion
    | stuck ↦ stuck
  ]

  abbrev rounds_for : Position → ℕ
  rounds_for none = 1
  rounds_for (some pos) = suc (length pos)

  unfoldable pub as_array : Position → Parsed (List (Option T))
  unfolding as_array_rounds
  as_array pos = as_array_rounds (rounds_for pos) pos []
