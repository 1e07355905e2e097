-- ===== src/Utils/Split/Pieces.antt =====
-- `splitString` (utils/utils.cpp) with a delimiter of one byte, on pieces that are joined by it.
use mysql_connect_pool.Prelude.{
  suc_add, ℕ, zero, suc, ◌+◌, ◌<◌, ◌≡◌, refl, true, false, none, some, List, [], ◌∷◌, ◌++◌, arith,
  length, take, drop, ◌==◌, append_assoc, take-length_append, length-append,
}
use mysql_connect_pool.Utils.Split.{
  starts_with, next_place, find, push_piece, put_piece, split_rounds, split_string,
}
use mysql_connect_pool.Utils.Split.Join.{join}

-- The byte does not stand in the text, which is not empty.
abbrev pub Free : ℕ → List ℕ → Type 0
Free d [] = Unit
Free d (c ∷ p) = ((d == c) ≡ false) × Free d p

abbrev pub IsPiece : ℕ → List ℕ → Type 0
IsPiece d p = (0 < length p) × Free d p

abbrev pub ArePieces : ℕ → List (List ℕ) → Type 0
ArePieces d [] = Unit
ArePieces d (p ∷ v) = IsPiece d p × ArePieces d v

find-Free : (d : ℕ) (p : List ℕ) → Free d p → find (d ∷ []) p ≡ none
unfolding find starts_with next_place
find-Free d [] f = refl
find-Free d (c ∷ p) (e, f) = rw (e, find-Free d p f) refl

same_byte : (d : ℕ) → (d == d) ≡ true
same_byte d = ground arith

find-append-Free :
    (d : ℕ) (p s : List ℕ) → Free d p → find (d ∷ []) (p ++ (d ∷ s)) ≡ some (length p)
unfolding find starts_with next_place
find-append-Free d [] s f = rw same_byte refl
find-append-Free d (c ∷ p) s (e, f) = rw (e, find-append-Free d p s f) refl

push_piece-some : (p : List ℕ) (v : List (List ℕ)) → 0 < length p → push_piece false p v ≡ p ∷ v
unfolding push_piece
push_piece-some [] v h = absurd (omega arith)
push_piece-some (c ∷ p) v h = refl

join-cons :
    (d : ℕ) (p q : List ℕ) (v : List (List ℕ))
    → join (d ∷ []) (p ∷ q ∷ v) ≡ p ++ (d ∷ join (d ∷ []) (q ∷ v))
unfolding join
join-cons d p q v = append_assoc p (d ∷ []) (join (d ∷ []) (q ∷ v))

join-one : (d : ℕ) (p : List ℕ) → join (d ∷ []) (p ∷ []) ≡ p
unfolding join
join-one d p = refl

drop-behind : (p : List ℕ) (d : ℕ) (s : List ℕ) → drop (length p + 1) (p ++ (d ∷ s)) ≡ s
drop-behind [] d s = refl
drop-behind (c ∷ p) d s = rw suc_add (drop-behind p d s)

split_rounds-last :
    (fuel d : ℕ) (s : List ℕ)
    → find (d ∷ []) s ≡ none
    → 0 < length s
    → split_rounds (suc fuel) (d ∷ []) false s ≡ some (s ∷ [])
unfolding split_rounds
split_rounds-last fuel d s e n = rw (split_rounds, e, push_piece-some s [] n) refl

split_rounds-piece :
    (fuel d : ℕ) (s p rest : List ℕ) (v : List (List ℕ))
    → find (d ∷ []) s ≡ some (length p)
    → take (length p) s ≡ p
    → drop (length p + 1) s ≡ rest
    → 0 < length p
    → split_rounds fuel (d ∷ []) false rest ≡ some v
    → split_rounds (suc fuel) (d ∷ []) false s ≡ some (p ∷ v)
unfolding split_rounds put_piece
split_rounds-piece fuel d s p rest v e t b n r =
    rw (split_rounds, e, t, b, r, push_piece-some p v n) refl

split_rounds-join :
    (fuel d : ℕ) (p : List ℕ) (v : List (List ℕ))
    → ArePieces d (p ∷ v)
    → length (join (d ∷ []) (p ∷ v)) < fuel
    → split_rounds fuel (d ∷ []) false (join (d ∷ []) (p ∷ v)) ≡ some (p ∷ v)
split_rounds-join zero d p v f h = absurd (omega arith)
split_rounds-join (suc fuel) d p [] ((n, f), r) h =
    rw join-one (split_rounds-last fuel d p (find-Free d p f) n)
split_rounds-join (suc fuel) d p (q ∷ v) ((n, f), r) h =
    let rest = join (d ∷ []) (q ∷ v) in
    let few : length (p ++ (d ∷ rest)) < suc fuel = rw join-cons at h in
    let l = length-append p (d ∷ rest) in
    rw join-cons (
      split_rounds-piece fuel d (p ++ (d ∷ rest)) p rest (q ∷ v) (find-append-Free d p rest f)
        (take-length_append p (d ∷ rest)) (drop-behind p d rest) n
        (split_rounds-join fuel d q v r (omega arith)))

pub split_string-join :
    (d : ℕ) (p : List ℕ) (v : List (List ℕ))
    → ArePieces d (p ∷ v)
    → split_string (join (d ∷ []) (p ∷ v)) (d ∷ []) false ≡ some (p ∷ v)
unfolding split_string
split_string-join d p v f =
    split_rounds-join (suc (length (join (d ∷ []) (p ∷ v)))) d p v f (omega arith)
