-- ===== src/Db/Examples.antt =====
-- The theorems on the array parser, at small texts.
mod Results
mod ConnStrings
mod Exceptions
use mysql_connect_pool.Prelude.{ℕ, ◌≡◌, ◌≢◌, refl, some, List, [], ◌∷◌, arith, map}
use mysql_connect_pool.Db.ArrayParser.{
  string_value, ok, overrun, stuck, get_next, as_array, skip_separator, same_text,
}
use mysql_connect_pool.Db.ArrayParser.Progress.{as_array-ne-stuck}
use mysql_connect_pool.Db.ArrayParser.Strings.{double_quoted, single_quoted, mangle}
use mysql_connect_pool.Db.ArrayParser.RoundTrip.{
  Element, absent, quoted, plain, AllWritable, to_text, stored, get_next-text_of_each_kind,
  as_array-to_text,
}

-- `x"y`
abbrev with_quote : List ℕ
with_quote = b'x' ∷ b'"' ∷ b'y' ∷ []

get_next-text_of_each_kind_example :
    (get_next (some (double_quoted with_quote (b',' ∷ [])))
      ≡ ok (string_value, mangle with_quote, some (skip_separator (b',' ∷ []))))
    × (get_next (some (single_quoted with_quote (b',' ∷ [])))
        ≡ ok (string_value, with_quote, some (skip_separator (b',' ∷ []))))
    × (get_next (some (b'x' ∷ b'y' ∷ [])) ≡ overrun)
get_next-text_of_each_kind_example =
    get_next-text_of_each_kind with_quote with_quote (b',' ∷ []) b'x' (b'y' ∷ [])
      (omega arith, (omega arith, (omega arith, tt))) (omega arith)
      (omega arith, omega arith, omega arith) (refl, (refl, tt))

as_array-ne-stuck_example : as_array (λ s. s) (some (b'{' ∷ b'x' ∷ b'}' ∷ [])) ≢ stuck
as_array-ne-stuck_example = as_array-ne-stuck (λ s. s) (some (b'{' ∷ b'x' ∷ b'}' ∷ []))

-- `{NULL,"a,b",7}`
abbrev three_elements : List Element
three_elements = absent ∷ quoted (b'a' ∷ b',' ∷ b'b' ∷ []) ∷ plain b'7' [] ∷ []

three_elements-AllWritable : AllWritable three_elements
unfolding same_text
three_elements-AllWritable = (
  tt,
  (
    (omega arith, (omega arith, (omega arith, tt))),
    (((omega arith, omega arith, omega arith), (refl, tt), refl), tt),
  ),
)

as_array-to_text_example :
    as_array (λ s. s) (some (to_text three_elements)) ≡ ok (map (stored (λ s. s)) three_elements)
as_array-to_text_example = as_array-to_text (λ s. s) three_elements three_elements-AllWritable
