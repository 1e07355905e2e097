-- ===== src/Db/Result/Walk.antt =====
-- A loop over a pair of iterators, `for (; it != last; ++it)`, that collects what it reads.
use mathlib.Core.List.{reverse, reverse-cons}
use mysql_connect_pool.Prelude.{
  subst, ℕ, zero, suc, ◌+◌, ◌-◌, ◌<◌, ◌≡◌, refl, Bool, true, false, some, List, [], ◌∷◌, ◌++◌,
  arith, if◌then◌else◌, length, get_elem?, length-append, ltb, ltb→lt, Bool-cases, inl, inr,
}
use mysql_connect_pool.Db.ResultImpl.{Access, ok, undefined, ◌>>=◌}

add_zero : (n : ℕ) → n + 0 ≡ n
add_zero n = omega arith

suc_shift : (i j : ℕ) → suc i + j ≡ i + suc j
suc_shift i j = omega arith

module _ {It A : Type 0} (same : It → It → Bool) (step : It → Access It)
    (read : It → Access A) where
  -- Fuel bounds the number of tests of `it != last`.
  unfoldable pub walk : ℕ → It → It → Access (List A)
  walk zero it last = undefined
  walk (suc fuel) it last =
      if same it last
      then ok []
      else (read it >>= λ a. step it >>= λ next. walk fuel next last >>= λ more. ok (a ∷ more))

  module _ (place : ℕ → It) (n : ℕ) (at_end : same (place n) (place n) ≡ true)
      (before_end : (i : ℕ) → i < n → same (place i) (place n) ≡ false)
      (step-place : (i : ℕ) → i < n → step (place i) ≡ ok (place (suc i))) where
    -- From place i to place n, when the places between hold the elements of a list.
    pub walk-place :
        (xs : List A) (i fuel : ℕ)
        → i + length xs ≡ n
        → length xs < fuel
        → ((j : ℕ) (a : A) → get_elem? xs j ≡ some a → read (place (i + j)) ≡ ok a)
        → walk fuel (place i) (place n) ≡ ok xs
    unfolding walk
    walk-place xs i zero e h r = absurd (omega arith)
    walk-place [] i (suc fuel) e h r = let there : i ≡ n = omega arith in rw (there, at_end) refl
    walk-place (x ∷ xs) i (suc fuel) e h r =
        let here : read (place i) ≡ ok x =
          subst (λ k. read (place k) ≡ ok x) (add_zero i) (r 0 x refl) in
        let rest =
          walk-place xs (suc i) fuel (omega arith) (omega arith)
            (λ j a g. rw suc_shift (r (suc j) a g)) in
        rw (before_end i (omega arith), here, step-place i (omega arith), rest) refl

get_elem?-append_left :
    {A : Type 0} (xs ys : List A) (i : ℕ) → i < length xs → get_elem? (xs ++ ys) i ≡ get_elem? xs i
get_elem?-append_left [] ys i h = elim h [ ]
get_elem?-append_left (x ∷ xs) ys zero h = refl
get_elem?-append_left (x ∷ xs) ys (suc i) h = get_elem?-append_left xs ys i (omega arith)

get_elem?-append_last :
    {A : Type 0} (xs : List A) (a : A) → get_elem? (xs ++ (a ∷ [])) (length xs) ≡ some a
get_elem?-append_last [] a = refl
get_elem?-append_last (x ∷ xs) a = get_elem?-append_last xs a

pub length-reverse : {A : Type 0} (xs : List A) → length (reverse xs) ≡ length xs
length-reverse [] = refl
length-reverse (x ∷ xs) = rw (reverse-cons, length-append) (omega (arith, length-reverse xs))

pub get_elem?-length :
    {A : Type 0} (xs : List A) (i : ℕ) {a : A} → get_elem? xs i ≡ some a → i < length xs
get_elem?-length [] i h = ground arith
get_elem?-length (x ∷ xs) zero h = omega arith
get_elem?-length (x ∷ xs) (suc i) h = omega (arith, get_elem?-length xs i h)

pub get_elem?-reverse :
    {A : Type 0} (xs : List A) (i : ℕ)
    → i < length xs
    → get_elem? (reverse xs) i ≡ get_elem? xs (length xs - suc i)
get_elem?-reverse [] i h = elim h [ ]
get_elem?-reverse (x ∷ xs) i h = rw reverse-cons (elim (Bool-cases (ltb i (length xs))) [
  | inl e ↦
      let before : i < length xs = ltb→lt i (length xs) e in
      let behind : suc (length xs) - suc i ≡ suc (length xs - suc i) = omega arith in
      rw
        (
          behind,
          get_elem?-append_left (reverse xs) (x ∷ []) i (omega (arith, length-reverse xs)),
          get_elem?-reverse xs i before,
        )
        refl
  | inr e ↦
      let there : i ≡ length (reverse xs) = ground (arith, length-reverse xs) in
      let first : suc (length xs) - suc (length (reverse xs)) ≡ 0 =
        omega (arith, length-reverse xs) in
      rw (there, first, get_elem?-append_last (reverse xs) x) refl
])
