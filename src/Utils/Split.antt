-- ===== src/Utils/Split.antt =====
-- `splitString` (utils/utils.cpp).
pub mod Join
pub mod Pieces
use mysql_connect_pool.Prelude.{
  ℕ, zero, suc, ◌+◌, ◌-◌, ◌≤◌, ◌≡◌, refl, sym, ap, ◌∙◌, Bool, true, false, not, ◌&&◌, ◌||◌, Option,
  none, some, List, [], ◌∷◌, ◌++◌, arith, if◌then◌else◌, ◌==◌, length, take, drop, append-nil,
  append_assoc, Option-cases, Bool-cases, take-length_append, drop-length_append,
}

-- Whether a text begins with another, and `s.find(delimiter)`: the first position where it does.
unfoldable pub starts_with : List ℕ → List ℕ → Bool
starts_with [] s = true
starts_with (d ∷ ds) [] = false
starts_with (d ∷ ds) (c ∷ s) = d == c && starts_with ds s

unfoldable pub next_place : Option ℕ → Option ℕ
next_place none = none
next_place (some n) = some (suc n)

unfoldable pub find : List ℕ → List ℕ → Option ℕ
unfolding starts_with next_place
find ds [] = if starts_with ds [] then some 0 else none
find ds (c ∷ s) = if starts_with ds (c ∷ s) then some 0 else next_place (find ds s)

-- `push_back` of a piece that is not empty, or of any when empty ones are accepted.
unfoldable pub push_piece : Bool → List ℕ → List (List ℕ) → List (List ℕ)
push_piece accept [] v = if accept then [] ∷ v else v
push_piece accept (c ∷ s) v = (c ∷ s) ∷ v

unfoldable pub put_piece : Bool → List ℕ → Option (List (List ℕ)) → Option (List (List ℕ))
unfolding push_piece
put_piece accept p none = none
put_piece accept p (some v) = some (push_piece accept p v)

-- The loop on the text behind `last`, and the piece behind it. `none`: the fuel, one more than the
-- rounds, is used up.
unfoldable pub split_rounds : ℕ → List ℕ → Bool → List ℕ → Option (List (List ℕ))
unfolding find push_piece put_piece
split_rounds zero ds accept s = none
split_rounds (suc fuel) ds accept s = elim (find ds s) [
  | none ↦ some (push_piece accept s [])
  | some next ↦
      put_piece accept (take next s) (split_rounds fuel ds accept (drop (next + length ds) s))
]

unfoldable pub split_string : List ℕ → List ℕ → Bool → Option (List (List ℕ))
unfolding split_rounds
split_string s [] accept = some []
split_string s (d ∷ ds) accept = split_rounds (suc (length s)) (d ∷ ds) accept s
