-- ===== src/Utils/Split/Join.antt =====
-- `splitString` (utils/utils.cpp) against the joining of its pieces.
use mysql_connect_pool.Prelude.{
  zero_add, suc_add, ℕ, zero, suc, ◌+◌, ◌<◌, ◌≡◌, refl, sym, ap, ◌∙◌, true, false, Option, none,
  some, List, [], ◌∷◌, ◌++◌, arith, length, take, drop, Option-cases, Bool-cases, length-drop, inl,
  inr,
}
use mysql_connect_pool.Utils.Split.{
  starts_with, next_place, find, push_piece, put_piece, split_rounds, split_string,
}

-- The pieces with the delimiter between them.
unfoldable pub join : List ℕ → List (List ℕ) → List ℕ
join ds [] = []
join ds (p ∷ []) = p
join ds (p ∷ q ∷ v) = p ++ ds ++ join ds (q ∷ v)

-- The pieces that are not empty.
pub drop_empty : List (List ℕ) → List (List ℕ)
drop_empty [] = []
drop_empty ([] ∷ v) = drop_empty v
drop_empty ((c ∷ p) ∷ v) = (c ∷ p) ∷ drop_empty v

-- No piece holds the delimiter.
pub data AllFree (ds : List ℕ) : List (List ℕ) → Type 0 where
  nil : AllFree ds []
  cons : {p : List ℕ} {v : List (List ℕ)} → find ds p ≡ none → AllFree ds v → AllFree ds (p ∷ v)

starts_with-append : (ds s : List ℕ) → starts_with ds s ≡ true → s ≡ ds ++ drop (length ds) s
unfolding starts_with
starts_with-append [] s h = refl
starts_with-append (d ∷ ds) [] h = ground arith
starts_with-append (d ∷ ds) (c ∷ s) h =
    let more = starts_with-append ds s (ground arith) in ground arith

starts_with-take :
    (ds s : List ℕ) (n : ℕ) → starts_with ds (take n s) ≡ true → starts_with ds s ≡ true
unfolding starts_with
starts_with-take [] s n h = refl
starts_with-take (d ∷ ds) s zero h = ground arith
starts_with-take (d ∷ ds) [] (suc n) h = h
starts_with-take (d ∷ ds) (c ∷ s) (suc n) h = let more = starts_with-take ds s n in ground arith

next_place-suc : (o : Option ℕ) (n : ℕ) → next_place o ≡ some (suc n) → o ≡ some n
unfolding next_place
next_place-suc none n h = ground arith
next_place-suc (some m) n h = ground arith

find-zero : (ds s : List ℕ) → find ds s ≡ some 0 → starts_with ds s ≡ true
unfolding find next_place
find-zero ds [] = elim (Bool-cases (starts_with ds [])) [
  | inl t ↦ λ h. t
  | inr t ↦ rw t (ground arith)
]
find-zero ds (c ∷ s) = elim (Bool-cases (starts_with ds (c ∷ s))) [
  | inl t ↦ λ h. t
  | inr t ↦ elim (Option-cases (find ds s)) [
    | inl e ↦ rw (t, e) (ground arith)
    | inr (m, e) ↦ rw (t, e) (ground arith)
  ]
]

find-suc :
    (ds s : List ℕ) (c n : ℕ)
    → find ds (c ∷ s) ≡ some (suc n)
    → (starts_with ds (c ∷ s) ≡ false) × (find ds s ≡ some n)
unfolding find
find-suc ds s c n = elim (Bool-cases (starts_with ds (c ∷ s))) [
  | inl t ↦ rw t (ground arith)
  | inr t ↦ rw t (λ h. (refl, next_place-suc (find ds s) n h))
]

-- The text before a place that `find` gives, and behind it.
find-append :
    (d : ℕ) (ds s : List ℕ) (n : ℕ)
    → find (d ∷ ds) s ≡ some n
    → s ≡ take n s ++ (d ∷ ds) ++ drop (n + length (d ∷ ds)) s
unfolding find starts_with
find-append d ds [] n h = ground arith
find-append d ds (c ∷ s) zero h =
    rw (zero_add (length (d ∷ ds)))
      (starts_with-append (d ∷ ds) (c ∷ s) (find-zero (d ∷ ds) (c ∷ s) h))
find-append d ds (c ∷ s) (suc n) h =
    rw (suc_add n (length (d ∷ ds)))
      (ap (◌∷◌ c) (find-append d ds s n (find-suc (d ∷ ds) s c n h).1))

find-take :
    (d : ℕ) (ds s : List ℕ) (n : ℕ) → find (d ∷ ds) s ≡ some n → find (d ∷ ds) (take n s) ≡ none
unfolding find next_place starts_with
find-take d ds [] n h = ground arith
find-take d ds (c ∷ s) zero h = refl
find-take d ds (c ∷ s) (suc n) h =
    let (not_here, later) = find-suc (d ∷ ds) s c n h in
    let more = find-take d ds s n later in
    let t = starts_with-take (d ∷ ds) (c ∷ s) (suc n) in
    elim (Bool-cases (starts_with (d ∷ ds) (c ∷ take n s))) [
      | inl y ↦ ground (arith, t y, not_here)
      | inr y ↦ rw (y, more) refl
    ]

push_piece-true : (p : List ℕ) (v : List (List ℕ)) → push_piece true p v ≡ p ∷ v
unfolding push_piece
push_piece-true [] v = refl
push_piece-true (c ∷ p) v = refl

push_piece-drop_empty :
    (p : List ℕ) (v : List (List ℕ)) → push_piece false p (drop_empty v) ≡ drop_empty (p ∷ v)
unfolding push_piece drop_empty
push_piece-drop_empty [] v = refl
push_piece-drop_empty (c ∷ p) v = refl

-- The length of what is left after a round.
rest-length :
    (d : ℕ) (ds s : List ℕ) (n : ℕ)
    → find (d ∷ ds) s ≡ some n
    → length (drop (n + length (d ∷ ds)) s) < length s
unfolding find starts_with
rest-length d ds [] n h = ground arith
rest-length d ds (c ∷ s) n h = omega (arith, length-drop (n + length (d ∷ ds)) (c ∷ s))

join-some :
    (ds p : List ℕ) (v : List (List ℕ)) → 0 < length v → join ds (p ∷ v) ≡ p ++ ds ++ join ds v
unfolding join
join-some ds p [] h = ground arith
join-some ds p (q ∷ v) h = refl

-- What the loop returns: pieces without the delimiter, at least one, that join to the text, and for
-- the other setting those of them that are not empty.
abbrev pub IsSplit : List ℕ → List ℕ → Option (List (List ℕ)) → Option (List (List ℕ)) → Type 0
IsSplit ds s x y =
    (v : List (List ℕ)) × (x ≡ some v)
    × (y ≡ some (drop_empty v))
    × (join ds v ≡ s)
    × AllFree ds v
    × (0 < length v)

push_piece-IsSplit :
    (d : ℕ) (ds s : List ℕ)
    → find (d ∷ ds) s ≡ none
    → IsSplit (d ∷ ds) s (some (push_piece true s [])) (some (push_piece false s []))
unfolding join push_piece drop_empty
push_piece-IsSplit d ds [] e = ([] ∷ [], refl, refl, refl, cons e nil, omega arith)
push_piece-IsSplit d ds (c ∷ s) e = ((c ∷ s) ∷ [], refl, refl, refl, cons e nil, omega arith)

put_piece-IsSplit :
    (d : ℕ) (ds s : List ℕ) (n : ℕ) {x y : Option (List (List ℕ))}
    → find (d ∷ ds) s ≡ some n
    → IsSplit (d ∷ ds) (drop (n + length (d ∷ ds)) s) x y
    → IsSplit (d ∷ ds) s (put_piece true (take n s) x) (put_piece false (take n s) y)
unfolding put_piece
put_piece-IsSplit d ds s n e (v, yes_v, no_v, joined, free, some_v) =
    rw (yes_v, no_v)
      (
        take n s ∷ v,
        ap some (push_piece-true (take n s) v),
        ap some (push_piece-drop_empty (take n s) v),
        join-some (d ∷ ds) (take n s) v some_v ∙ rw joined (sym (find-append d ds s n e)),
        cons (find-take d ds s n e) free,
        omega arith,
      )

split_rounds-IsSplit :
    (fuel d : ℕ) (ds s : List ℕ)
    → length s < fuel
    → IsSplit (d ∷ ds) s (split_rounds fuel (d ∷ ds) true s) (split_rounds fuel (d ∷ ds) false s)
unfolding split_rounds drop_empty join
split_rounds-IsSplit zero d ds s le = ground arith
split_rounds-IsSplit (suc fuel) d ds s le = elim (Option-cases (find (d ∷ ds) s)) [
  | inl e ↦ rw (split_rounds, e) (push_piece-IsSplit d ds s e)
  | inr (n, e) ↦
      rw (split_rounds, e)
        (put_piece-IsSplit d ds s n e (
          split_rounds-IsSplit fuel d ds (drop (n + length (d ∷ ds)) s)
            (let r = rest-length d ds s n e in omega arith)))
]

-- What `splitString` returns with and without empty pieces: no pieces for the empty delimiter.
abbrev pub IsSplitBy : List ℕ → List ℕ → Option (List (List ℕ)) → Option (List (List ℕ)) → Type 0
IsSplitBy [] s x y = (x ≡ some []) × (y ≡ some [])
IsSplitBy (d ∷ ds) s x y = IsSplit (d ∷ ds) s x y

-- `splitString` returns, for every text and delimiter. For the empty delimiter it returns no pieces.
-- For any other, when empty pieces are accepted, there is a piece, none holds the delimiter and the
-- pieces joined by it are the text; when they are not, the result is the same without the empty
-- pieces.
pub split_string-IsSplit :
    (s ds : List ℕ) → IsSplitBy ds s (split_string s ds true) (split_string s ds false)
unfolding split_string
split_string-IsSplit s [] = (refl, refl)
split_string-IsSplit s (d ∷ ds) = split_rounds-IsSplit (suc (length s)) d ds s (omega arith)
