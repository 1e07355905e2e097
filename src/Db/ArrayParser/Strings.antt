-- ===== src/Db/ArrayParser/Strings.antt =====
-- Strings of an array field, written and read back (db/ArrayParser.cpp).
use mysql_connect_pool.Prelude.{
  ℕ, suc, ◌+◌, ◌≡◌, ◌≢◌, refl, ap, ◌∙◌, ◌||◌, some, List, [], ◌∷◌, ◌++◌, map, arith, length, drop,
  ◌==◌, if◌then◌else◌, take-length_append, drop-length_append,
}
use mysql_connect_pool.Db.ArrayParser.{
  string_value, ok, scan_single, scan_double, byte_at, read_token, single_token, double_token,
  parse_single_quoted_string, parse_double_quoted_string, between_quotes, skip_separator, get_next,
  unescape_single, unescape_double,
}

-- The text between double quotes: `"` and `\` get a `\` in front.
abbrev pub escape_double : List ℕ → List ℕ
escape_double [] = []
escape_double (c ∷ cs) =
    if c == b'"' || c == b'\\' then b'\\' ∷ c ∷ escape_double cs else c ∷ escape_double cs

-- The text between single quotes: `'` is written twice.
abbrev pub escape_single : List ℕ → List ℕ
escape_single [] = []
escape_single (c ∷ cs) = if c == b'\'' then c ∷ c ∷ escape_single cs else c ∷ escape_single cs

-- What the parser makes of an escaped double quote.
abbrev pub mangle : List ℕ → List ℕ
mangle = map (λ c. if c == b'"' then b'\\' else c)

abbrev pub HasNo : ℕ → List ℕ → Type 0
HasNo c [] = Unit
HasNo c (x ∷ xs) = (x ≢ c) × HasNo c xs

scan_double-plain :
    (n c : ℕ) (s : List ℕ) → c ≢ b'"' → c ≢ b'\\' → scan_double n (c ∷ s) ≡ scan_double (n + 1) s
unfolding scan_double
scan_double-plain n c [] q e = ground arith
scan_double-plain n c (d ∷ s) q e = ground arith

unescape_double-plain :
    (c : ℕ) (s : List ℕ) → c ≢ b'\\' → unescape_double (c ∷ s) ≡ c ∷ unescape_double s
unfolding unescape_double
unescape_double-plain c [] e = refl
unescape_double-plain c (d ∷ s) e = ground arith

scan_double-close : (n : ℕ) (s : List ℕ) → scan_double n (b'"' ∷ s) ≡ ok (n + 1)
unfolding scan_double
scan_double-close n [] = refl
scan_double-close n (d ∷ s) = refl

scan_double-escape :
    (n : ℕ) (s rest : List ℕ)
    → scan_double n (escape_double s ++ (b'"' ∷ rest)) ≡ ok (n + length (escape_double s) + 1)
unfolding scan_double
scan_double-escape n [] rest = ground (arith, scan_double-close n rest)
scan_double-escape n (c ∷ cs) rest = ground (
  arith,
  scan_double-plain n c (escape_double cs ++ (b'"' ∷ rest)),
  scan_double-escape (n + 1) cs rest,
  scan_double-escape (n + 2) cs rest,
)

unescape_double-escape : (s : List ℕ) → unescape_double (escape_double s) ≡ mangle s
unfolding unescape_double
unescape_double-escape [] = refl
unescape_double-escape (c ∷ cs) =
    ground (arith, unescape_double-plain c (escape_double cs), unescape_double-escape cs)

between_quotes_lem :
    (q : ℕ) (body rest : List ℕ)
    → between_quotes q (q ∷ (body ++ (q ∷ rest))) (suc (suc (length body))) ≡ ok body
unfolding between_quotes
between_quotes_lem q body rest =
    ground (arith, take-length_append body (q ∷ rest), drop-length_append body (q ∷ rest))

scan_single-plain :
    (n c : ℕ) (s : List ℕ) → c ≢ b'\'' → c ≢ b'\\' → scan_single n (c ∷ s) ≡ scan_single (n + 1) s
unfolding scan_single
scan_single-plain n c [] q e = ground arith
scan_single-plain n c (d ∷ s) q e = ground arith

unescape_single-plain :
    (c : ℕ) (s : List ℕ) → c ≢ b'\'' → c ≢ b'\\' → unescape_single (c ∷ s) ≡ c ∷ unescape_single s
unfolding unescape_single
unescape_single-plain c [] q e = refl
unescape_single-plain c (d ∷ s) q e = ground arith

scan_single-close :
    (n : ℕ) (s : List ℕ) → byte_at s ≢ b'\'' → scan_single n (b'\'' ∷ s) ≡ ok (n + 1)
unfolding scan_single
scan_single-close n [] h = refl
scan_single-close n (d ∷ s) h = ground arith

scan_single-escape :
    (n : ℕ) (s rest : List ℕ)
    → HasNo b'\\' s
    → byte_at rest ≢ b'\''
    → scan_single n (escape_single s ++ (b'\'' ∷ rest)) ≡ ok (n + length (escape_single s) + 1)
unfolding scan_single
scan_single-escape n [] rest h e = ground (arith, scan_single-close n rest e)
scan_single-escape n (c ∷ cs) rest h e = ground (
  arith,
  scan_single-plain n c (escape_single cs ++ (b'\'' ∷ rest)),
  scan_single-escape (n + 1) cs rest h.1 e,
  scan_single-escape (n + 2) cs rest h.1 e,
)

unescape_single-escape : (s : List ℕ) → HasNo b'\\' s → unescape_single (escape_single s) ≡ s
unfolding unescape_single
unescape_single-escape [] h = refl
unescape_single-escape (c ∷ cs) h =
    ground (arith, unescape_single-plain c (escape_single cs), unescape_single-escape cs h.1)

abbrev pub double_quoted : List ℕ → List ℕ → List ℕ
double_quoted s rest = b'"' ∷ (escape_double s ++ (b'"' ∷ rest))

abbrev pub single_quoted : List ℕ → List ℕ → List ℕ
single_quoted s rest = b'\'' ∷ (escape_single s ++ (b'\'' ∷ rest))

drop-quoted :
    (q : ℕ) (body rest : List ℕ) → drop (suc (suc (length body))) (q ∷ (body ++ (q ∷ rest))) ≡ rest
drop-quoted q [] rest = refl
drop-quoted q (c ∷ cs) rest = drop-quoted q cs rest

read_token-double :
    (s rest : List ℕ)
    → read_token (double_quoted s rest)
      ≡ ok (record {
        found = string_value;
        value = mangle s;
        size = suc (suc (length (escape_double s)));
      })
unfolding read_token double_token parse_double_quoted_string
read_token-double s rest =
    let body = escape_double s in
    let e : scan_double 1 (body ++ (b'"' ∷ rest)) ≡ ok (suc (suc (length body))) =
      scan_double-escape 1 s rest ∙ ap ok (omega arith) in
    ground (arith, e, between_quotes_lem b'"' body rest, unescape_double-escape s)

pub get_next-double_quoted :
    (s rest : List ℕ)
    → get_next (some (double_quoted s rest))
      ≡ ok (string_value, mangle s, some (skip_separator rest))
unfolding get_next
get_next-double_quoted s rest =
    rw (read_token-double s rest) (rw (drop-quoted b'"' (escape_double s) rest))

pub get_next-single_quoted :
    (s rest : List ℕ)
    → HasNo b'\\' s
    → byte_at rest ≢ b'\''
    → get_next (some (single_quoted s rest)) ≡ ok (string_value, s, some (skip_separator rest))
unfolding get_next
get_next-single_quoted s rest h e =
    rw (read_token-single) (rw (drop-quoted b'\'' (escape_single s) rest))
  where
    body : List ℕ
    body = escape_single s

    scanned : scan_single 1 (body ++ (b'\'' ∷ rest)) ≡ ok (suc (suc (length body)))
    scanned = scan_single-escape 1 s rest h e ∙ ap ok (omega arith)

    read_token-single :
        read_token (single_quoted s rest)
        ≡ ok (record { found = string_value; value = s; size = suc (suc (length body)) })
    read_token-single =
        unfold read_token single_token parse_single_quoted_string in
        ground (arith, scanned, between_quotes_lem b'\'' body rest, unescape_single-escape s h)
