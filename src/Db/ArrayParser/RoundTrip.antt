-- ===== src/Db/ArrayParser/RoundTrip.antt =====
-- A one-dimensional array, written as text and read by `Field::asArray` (db/Field.h,
-- db/ArrayParser.cpp).
use mysql_connect_pool.Prelude.{
  ℕ, zero, suc, ◌+◌, ◌<◌, ◌≡◌, ◌≢◌, refl, ap, ◌∙◌, sym, true, false, Option, none, some, List, [],
  ◌∷◌, ◌++◌, map, arith, length, length-append, if◌then◌else◌, take-length_append,
  drop-length_append, append_assoc, append-nil,
}
use mysql_connect_pool.Db.ArrayParser.{
  Juncture, byte_at, string_value, null_value, ok, overrun, scan_unquoted, is_end, read_token,
  unquoted_token, same_text, null_text, skip_separator, get_next, as_array_rounds, as_array,
}
use mysql_connect_pool.Db.ArrayParser.Strings.{
  HasNo, mangle, escape_double, double_quoted, single_quoted, get_next-double_quoted,
  get_next-single_quoted,
}

-- No byte at which an unquoted string ends.
abbrev pub HasNoEnd : List ℕ → Type 0
HasNoEnd [] = Unit
HasNoEnd (x ∷ xs) = (is_end x ≡ false) × HasNoEnd xs

-- A byte that starts an unquoted string.
abbrev pub Starts : ℕ → Type 0
Starts c = (c ≢ b'{') × (c ≢ b'\'') × (c ≢ b'"')

scan_unquoted-overrun : (n : ℕ) (s : List ℕ) → HasNoEnd s → scan_unquoted n s ≡ overrun
unfolding scan_unquoted
scan_unquoted-overrun n [] h = refl
scan_unquoted-overrun n (c ∷ cs) h = ground (arith, scan_unquoted-overrun (n + 1) cs h.1)

get_next-overrun :
    (c : ℕ) (cs : List ℕ) → Starts c → HasNoEnd (c ∷ cs) → get_next (some (c ∷ cs)) ≡ overrun
unfolding get_next read_token unquoted_token
get_next-overrun c cs s h = ground (arith, scan_unquoted-overrun 0 (c ∷ cs) h)

-- A text `s` written between double quotes, with `\` before each `"` and `\`, is read with a `\` in
-- place of each `"`, since the escaping byte is kept in place of the escaped one. A text `t` with no
-- `\`, written between single quotes with each `'` doubled, is read back as it was, if no further `'`
-- follows the closing one. What follows is read on from behind the closing quote and a separator
-- there. On a bare text in which no `,`, `;` or `}` follows, `getNext` reads past the end of its
-- input, since the loop does not stop at the terminating zero.
pub get_next-text_of_each_kind :
    (s t rest : List ℕ) (c : ℕ) (cs : List ℕ)
    → HasNo b'\\' t
    → byte_at rest ≢ b'\''
    → Starts c
    → HasNoEnd (c ∷ cs)
    → (get_next (some (double_quoted s rest))
        ≡ ok (string_value, mangle s, some (skip_separator rest)))
      × (get_next (some (single_quoted t rest)) ≡ ok (string_value, t, some (skip_separator rest)))
      × (get_next (some (c ∷ cs)) ≡ overrun)
get_next-text_of_each_kind s t rest c cs h e b n =
    (get_next-double_quoted s rest, get_next-single_quoted t rest h e, get_next-overrun c cs b n)

scan_unquoted-end :
    (n : ℕ) (s : List ℕ) (d : ℕ) (rest : List ℕ)
    → HasNoEnd s
    → is_end d ≡ true
    → scan_unquoted n (s ++ (d ∷ rest)) ≡ ok (n + length s)
unfolding scan_unquoted
scan_unquoted-end n [] d rest h e = ground arith
scan_unquoted-end n (c ∷ cs) d rest h e = ground (arith, scan_unquoted-end (n + 1) cs d rest h.1 e)

-- An element as it is written: NULL, a string between double quotes, or a bare string.
pub data Element : Type 0 where
  absent : Element
  quoted : List ℕ → Element
  plain : ℕ → List ℕ → Element

abbrev pub text : Element → List ℕ → List ℕ
text absent rest = null_text ++ rest
text (quoted s) rest = double_quoted s rest
text (plain c cs) rest = (c ∷ cs) ++ rest

-- A quoted string holds no double quote; a bare one has no byte of the syntax, and is not NULL.
abbrev pub IsWritable : Element → Type 0
IsWritable absent = Unit
IsWritable (quoted s) = HasNo b'"' s
IsWritable (plain c cs) = Starts c × HasNoEnd (c ∷ cs) × (same_text (c ∷ cs) null_text ≡ false)

abbrev pub AllWritable : List Element → Type 0
AllWritable [] = Unit
AllWritable (e ∷ es) = IsWritable e × AllWritable es

abbrev after_element : List Element → List ℕ
after_element [] = b'}' ∷ []
after_element (e ∷ es) = b',' ∷ text e (after_element es)

abbrev elements : List Element → List ℕ
elements [] = b'}' ∷ []
elements (e ∷ es) = text e (after_element es)

-- `{e1,e2,…}`
abbrev pub to_text : List Element → List ℕ
to_text es = b'{' ∷ elements es

abbrev found_of : Element → Juncture
found_of absent = null_value
found_of _ = string_value

abbrev value_of : Element → List ℕ
value_of absent = []
value_of (quoted s) = s
value_of (plain c cs) = c ∷ cs

mangle-HasNo : (s : List ℕ) → HasNo b'"' s → mangle s ≡ s
mangle-HasNo [] h = refl
mangle-HasNo (c ∷ cs) h = ground (arith, mangle-HasNo cs h.1)

get_next-plain :
    (c : ℕ) (cs : List ℕ) (d : ℕ) (rest : List ℕ)
    → Starts c
    → HasNoEnd (c ∷ cs)
    → is_end d ≡ true
    → get_next (some ((c ∷ cs) ++ (d ∷ rest))) ≡ (
        if same_text (c ∷ cs) null_text
        then ok (null_value, [], some (skip_separator (d ∷ rest)))
        else ok (string_value, c ∷ cs, some (skip_separator (d ∷ rest))))
unfolding get_next read_token unquoted_token
get_next-plain c cs d rest s h e = ground (
  arith,
  scan_unquoted-end 0 (c ∷ cs) d rest h e,
  take-length_append cs (d ∷ rest),
  drop-length_append cs (d ∷ rest),
)

get_next-text :
    (e : Element) (d : ℕ) (rest : List ℕ)
    → IsWritable e
    → is_end d ≡ true
    → get_next (some (text e (d ∷ rest)))
      ≡ ok (found_of e, value_of e, some (skip_separator (d ∷ rest)))
get_next-text absent d rest w h =
    unfold same_text in
    get_next-plain b'N' (b'U' ∷ b'L' ∷ b'L' ∷ []) d rest (omega arith) (ground arith) h
get_next-text (quoted s) d rest w h =
    get_next-double_quoted s (d ∷ rest)
    ∙ ap (λ v. ok (string_value, v, some (skip_separator (d ∷ rest)))) (mangle-HasNo s w)
get_next-text (plain c cs) d rest w h = ground (arith, get_next-plain c cs d rest w.0 w.1 h)

-- Behind an element comes a byte that ends it; the parser skips it if it is a comma.
get_next-element :
    (e : Element) (es : List Element)
    → IsWritable e
    → get_next (some (elements (e ∷ es))) ≡ ok (found_of e, value_of e, some (elements es))
unfolding skip_separator
get_next-element e [] w = get_next-text e b'}' [] w refl
get_next-element e (x ∷ xs) w = get_next-text e b',' (text x (after_element xs)) w refl

length-text : (e : Element) (rest : List ℕ) → length rest < length (text e rest)
length-text absent rest = omega arith
length-text (quoted s) rest = omega (arith, length-append (escape_double s) (b'"' ∷ rest))
length-text (plain c cs) rest = omega (arith, length-append cs rest)

length-elements :
    (e : Element) (es : List Element) → length (elements es) < length (elements (e ∷ es))
length-elements e [] = length-text e (b'}' ∷ [])
length-elements e (x ∷ xs) = omega (arith, length-text e (b',' ∷ text x (after_element xs)))

skip-elements : (es : List Element) → AllWritable es → skip_separator (elements es) ≡ elements es
unfolding skip_separator
skip-elements [] w = refl
skip-elements (absent ∷ es) w = refl
skip-elements (quoted s ∷ es) w = refl
skip-elements (plain c cs ∷ es) w = ground arith

module _ {T : Type 0} (read : List ℕ → T) where
  abbrev pub stored : Element → Option T
  stored absent = none
  stored (quoted s) = some (read s)
  stored (plain c cs) = some (read (c ∷ cs))

  as_array_rounds-end :
      (n : ℕ) (ret : List (Option T))
      → 1 < n
      → as_array_rounds read n (some (b'}' ∷ [])) ret ≡ ok ret
  unfolding as_array_rounds get_next read_token skip_separator
  as_array_rounds-end zero ret h = elim h [ ]
  as_array_rounds-end (suc zero) ret h = absurd (omega arith)
  as_array_rounds-end (suc (suc n)) ret h = ap ok (append-nil ret)

  as_array_rounds-element :
      (n : ℕ) (e : Element) (es : List Element) (ret : List (Option T))
      → IsWritable e
      → as_array_rounds read (suc n) (some (elements (e ∷ es))) ret
        ≡ as_array_rounds read n (some (elements es)) (ret ++ (stored e ∷ []))
  unfolding as_array_rounds
  as_array_rounds-element n absent es ret w = rw (get_next-element absent es w, as_array_rounds)
  as_array_rounds-element n (quoted s) es ret w =
      rw (get_next-element (quoted s) es w, as_array_rounds)
  as_array_rounds-element n (plain c cs) es ret w =
      rw (get_next-element (plain c cs) es w, as_array_rounds)

  as_array_rounds-elements :
      (n : ℕ) (es : List Element) (ret : List (Option T))
      → AllWritable es
      → length (elements es) < n
      → as_array_rounds read n (some (elements es)) ret ≡ ok (ret ++ map stored es)
  as_array_rounds-elements zero es ret w h = elim h [ ]
  as_array_rounds-elements (suc n) [] ret w h =
      as_array_rounds-end (suc n) ret (omega arith) ∙ ap ok (sym (append-nil ret))
  as_array_rounds-elements (suc n) (e ∷ es) ret w h =
      as_array_rounds-element n e es ret w.0
      ∙ as_array_rounds-elements n es (ret ++ (stored e ∷ [])) w.1
          (omega (arith, length-elements e es))
      ∙ ap ok (append_assoc ret (stored e ∷ []) (map stored es))

  -- `asArray` reads back a one-dimensional array, `{`, the elements with commas between them, `}`: a
  -- null for each NULL, and the value read from each string, in their order. A string between double
  -- quotes holds no double quote, and a bare one none of the bytes of the syntax.
  pub as_array-to_text :
      (es : List Element) → AllWritable es → as_array read (some (to_text es)) ≡ ok (map stored es)
  unfolding as_array as_array_rounds
  as_array-to_text es w =
      ap (λ p. as_array_rounds read (suc (length (elements es))) (some p) []) (skip-elements es w)
      ∙ as_array_rounds-elements (suc (length (elements es))) es [] w (omega arith)
