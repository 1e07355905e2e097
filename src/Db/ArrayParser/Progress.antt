-- ===== src/Db/ArrayParser/Progress.antt =====
-- Each token of an array field takes some of the text, so `Field::asArray` ends.
use mysql_connect_pool.Prelude.{
  ℕ, zero, suc, ◌+◌, ◌≤◌, ◌<◌, ◌≡◌, ◌≢◌, refl, true, Option, none, some, List, [], ◌∷◌, ◌++◌, arith,
  length, drop, take, length-drop, if◌then◌else◌, ◌⊎◌,
}
use mysql_connect_pool.Db.ArrayParser.{
  null_value, string_value, Parsed, ok, argument_error, overrun, assertion, stuck, ◌>>=◌,
  scan_single, scan_double, scan_unquoted, is_end, byte_at, Token, read_token, single_token,
  double_token, unquoted_token, parse_single_quoted_string, parse_double_quoted_string,
  between_quotes, same_text, skip_separator, Position, get_next, as_array_rounds, as_array,
  null_text,
}

-- The offset that a scan of `s` from `n` on returns lies past `n` and within the text.
abbrev Scans : ℕ → List ℕ → Parsed ℕ → Type 0
Scans n s (ok m) = (n < m) × (m ≤ n + length s)
Scans n s stuck = ⊥
Scans n s _ = Unit

scan_single-Scans : (n : ℕ) (s : List ℕ) → Scans n s (scan_single n s)
unfolding scan_single
scan_single-Scans n [] = tt
scan_single-Scans n (c ∷ []) = ground arith
scan_single-Scans n (c ∷ d ∷ rest) =
    ground (arith, scan_single-Scans (n + 2) rest, scan_single-Scans (n + 1) (d ∷ rest))

scan_double-Scans : (n : ℕ) (s : List ℕ) → Scans n s (scan_double n s)
unfolding scan_double
scan_double-Scans n [] = tt
scan_double-Scans n (c ∷ []) = ground arith
scan_double-Scans n (c ∷ d ∷ rest) =
    ground (arith, scan_double-Scans (n + 2) rest, scan_double-Scans (n + 1) (d ∷ rest))

-- An unquoted string may be empty: it then ends at its first byte.
abbrev Ends : ℕ → List ℕ → Parsed ℕ → Type 0
Ends n s (ok m) = (n ≤ m) × (m ≤ n + length s) × ((n < m) ⊎ (is_end (byte_at s) ≡ true))
Ends n s stuck = ⊥
Ends n s _ = Unit

scan_unquoted-Ends : (n : ℕ) (s : List ℕ) → Ends n s (scan_unquoted n s)
unfolding scan_unquoted
scan_unquoted-Ends n [] = tt
scan_unquoted-Ends n (c ∷ cs) = ground (arith, scan_unquoted-Ends (n + 1) cs)

-- A token takes some of the text: its own bytes, or the separator behind it.
abbrev Takes : List ℕ → Parsed Token → Type 0
Takes pos (ok t) = length (skip_separator (drop t.size pos)) < length pos
Takes pos stuck = ⊥
Takes pos _ = Unit

length-skip_separator : (s : List ℕ) → length (skip_separator s) ≤ length s
unfolding skip_separator
length-skip_separator [] = omega arith
length-skip_separator (c ∷ cs) = ground arith

-- What a token of size n leaves, if it has a byte at all.
left_after :
    (pos : List ℕ) (n : ℕ)
    → 0 < n
    → 0 < length pos
    → length (skip_separator (drop n pos)) < length pos
left_after pos n h k = omega (arith, length-skip_separator (drop n pos), length-drop n pos)

module _ (c : ℕ) (cs : List ℕ) where
  single_size :
      (r : Parsed ℕ)
      → Scans 1 cs r
      → Takes (c ∷ cs) (
          r >>= λ n. parse_single_quoted_string (c ∷ cs) n >>= λ v.
          ok (record { found = string_value; value = v; size = n }))
  unfolding parse_single_quoted_string between_quotes
  single_size (ok n) h = ground (arith, left_after (c ∷ cs) n)
  single_size argument_error h = tt
  single_size overrun h = tt
  single_size assertion h = tt
  single_size stuck h = h

  double_size :
      (r : Parsed ℕ)
      → Scans 1 cs r
      → Takes (c ∷ cs) (
          r >>= λ n. parse_double_quoted_string (c ∷ cs) n >>= λ v.
          ok (record { found = string_value; value = v; size = n }))
  unfolding parse_double_quoted_string between_quotes
  double_size (ok n) h = ground (arith, left_after (c ∷ cs) n)
  double_size argument_error h = tt
  double_size overrun h = tt
  double_size assertion h = tt
  double_size stuck h = h

  -- At a `}` an unquoted string is never read.
  unquoted_size :
      (r : Parsed ℕ)
      → Ends 0 (c ∷ cs) r
      → c ≢ b'}'
      → Takes (c ∷ cs) (
          r >>= λ n.
          if same_text (take n (c ∷ cs)) null_text
          then ok (record { found = null_value; value = []; size = n })
          else ok (record { found = string_value; value = take n (c ∷ cs); size = n }))
  unfolding skip_separator
  unquoted_size (ok zero) h e = ground arith
  unquoted_size (ok (suc n)) h e = ground (arith, left_after (c ∷ cs) (suc n))
  unquoted_size argument_error h e = tt
  unquoted_size overrun h e = tt
  unquoted_size assertion h e = tt
  unquoted_size stuck h e = ground arith

  read_token-Takes : Takes (c ∷ cs) (read_token (c ∷ cs))
  unfolding read_token single_token double_token unquoted_token
  read_token-Takes = ground (
    arith,
    left_after (c ∷ cs) 1,
    single_size (scan_single 1 cs) (scan_single-Scans 1 cs),
    double_size (scan_double 1 cs) (scan_double-Scans 1 cs),
    unquoted_size (scan_unquoted 0 (c ∷ cs)) (scan_unquoted-Ends 0 (c ∷ cs)),
  )

module _ {T : Type 0} (read : List ℕ → T) where
  abbrev Settles : Parsed (List (Option T)) → Type 0
  Settles stuck = ⊥
  Settles _ = Unit

  as_array_rounds-Settles :
      (n : ℕ) (pos : List ℕ) (ret : List (Option T))
      → length pos < n
      → Settles (as_array_rounds read n (some pos) ret)
  unfolding as_array_rounds get_next
  as_array_rounds-Settles zero pos ret h = elim h [ ]
  as_array_rounds-Settles (suc n) [] ret h = unfold read_token in tt
  as_array_rounds-Settles (suc n) (c ∷ cs) ret h =
      go (read_token (c ∷ cs)) refl (read_token-Takes c cs)
        (λ p k out. as_array_rounds-Settles n p out k)
    where
      go :
          (r : Parsed Token)
          → read_token (c ∷ cs) ≡ r
          → Takes (c ∷ cs) r
          → ((p : List ℕ)
              → length p < n
              → (out : List (Option T)) → Settles (as_array_rounds read n (some p) out))
          → Settles (as_array_rounds read (suc n) (some (c ∷ cs)) ret)
      go (ok t) e k ih =
          let left = ih (skip_separator (drop t.size (c ∷ cs))) (omega arith) in
          ground (
            arith,
            e,
            left (ret ++ (some (read t.value) ∷ [])),
            left (ret ++ (none ∷ [])),
            left (ret ++ []),
          )
      go argument_error e k ih = rw (e, as_array_rounds) tt
      go overrun e k ih = rw (e, as_array_rounds) tt
      go assertion e k ih = rw (e, as_array_rounds) tt
      go stuck e k ih = absurd k

  -- `asArray` ends on every text, and on a null pointer: with an array, by throwing, or in one of
  -- the undefined reads and failed assertions; a round for each byte is enough.
  pub as_array-ne-stuck : (pos : Position) → as_array read pos ≢ stuck
  unfolding as_array as_array_rounds get_next
  as_array-ne-stuck none h = cc
  as_array-ne-stuck (some pos) h =
      let k : as_array_rounds read (suc (length pos)) (some pos) [] ≡ stuck = h in
      rw k at (as_array_rounds-Settles (suc (length pos)) pos [] (omega arith))
