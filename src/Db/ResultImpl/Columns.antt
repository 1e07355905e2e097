-- ===== src/Db/ResultImpl/Columns.antt =====
-- The number of a column by its name (MySQLImpl/MySQLResultImpl.cpp).
use mysql_connect_pool.Prelude.{
  ℕ, suc, ◌+◌, ◌<◌, ◌≡◌, refl, true, false, Option, none, some, List, [], ◌∷◌, arith, if◌then◌else◌,
  length, ltb, Bool-cases, inl, inr, Option-cases,
}
use mysql_connect_pool.Db.ArrayParser.{same_text}
use mysql_connect_pool.Db.ResultImpl.{
  ok, Stored, lower, assign, find_name, put_names, make_result_impl, no_column, found_column,
  column_number,
}

pub same_text-eq : (a b : List ℕ) → same_text a b ≡ true → a ≡ b
unfolding same_text
same_text-eq [] [] h = refl
same_text-eq [] (c ∷ b) h = ground arith
same_text-eq (c ∷ a) [] h = ground arith
same_text-eq (c ∷ a) (d ∷ b) h = ground (arith, same_text-eq a b)

same_text_refl : (a : List ℕ) → same_text a a ≡ true
unfolding same_text
same_text_refl [] = refl
same_text_refl (c ∷ a) = ground (arith, same_text_refl a)

differs : (i j k : List ℕ) → same_text i j ≡ false → same_text i k ≡ true → same_text j k ≡ false
differs i j k = elim (Bool-cases (same_text j k)) [
  | inl same ↦ rw (same_text-eq j k same) (λ d s. absurd (ground arith))
  | inr other ↦ λ d s. other
]

find_name-assign :
    (k j : List ℕ) (v : ℕ) (m : List (List ℕ × ℕ))
    → find_name k (assign j v m) ≡ (if same_text j k then some v else find_name k m)
unfolding find_name assign
find_name-assign k j v [] = refl
find_name-assign k j v ((i, w) ∷ m) = elim (Bool-cases (same_text i j)) [
  | inl same ↦
      rw (same, same_text-eq i j same)
        (elim (Bool-cases (same_text j k)) [
          | inl found ↦ rw found refl
          | inr other ↦ rw other refl
        ])
  | inr differ ↦ rw differ (elim (Bool-cases (same_text i k)) [
    | inl here ↦ rw (here, differs i j k differ here) refl
    | inr other ↦ rw other (find_name-assign k j v m)
  ])
]

-- The last column of this name, from column i on.
pub last_column : ℕ → List ℕ → List (List ℕ) → Option ℕ
last_column i k [] = none
last_column i k (n ∷ ns) = elim (last_column (suc i) k ns) [
  | some j ↦ some j
  | none ↦ if same_text (lower n) k then some i else none
]

find_name-put_names :
    (k : List ℕ) (i : ℕ) (ns : List (List ℕ)) (m : List (List ℕ × ℕ))
    → find_name k (put_names i ns m)
      ≡ (elim (last_column i k ns) [ some j ↦ some j | none ↦ find_name k m ])
unfolding put_names last_column
find_name-put_names k i [] m = refl
find_name-put_names k i (n ∷ ns) m =
    rw (find_name-put_names k (suc i) ns (assign (lower n) i m))
      (elim (Option-cases (last_column (suc i) k ns)) [
        | inl e ↦
            rw (e, find_name-assign k (lower n) i m)
              (elim (Bool-cases (same_text (lower n) k)) [
                | inl same ↦ rw same refl
                | inr other ↦ rw other refl
              ])
        | inr (j, e) ↦ rw e refl
      ])

-- In a result with columns, a name is looked up without regard to the case of its letters: the call
-- gives the last column whose name is the same in lower case, and throws `RangeError` when there is
-- none. A result of no columns gives the largest number for every name.
pub column_number-make_result_impl :
    (col : List ℕ) (s : Stored) (affected insert_id : ℕ)
    → column_number col (make_result_impl (some s) affected insert_id) ≡ (
        if ltb 0 (length s.names)
        then found_column (last_column 0 (lower col) s.names)
        else ok no_column)
unfolding column_number make_result_impl
column_number-make_result_impl col s affected insert_id =
    elim (Bool-cases (ltb 0 (length s.names))) [
      | inl e ↦
          rw (e, find_name-put_names (lower col) 0 s.names [])
            (elim (Option-cases (last_column 0 (lower col) s.names)) [
              | inl n ↦ rw n refl
              | inr (j, n) ↦ rw n refl
            ])
      | inr e ↦ rw e refl
    ]

pub last_column-lt :
    (i : ℕ) (k : List ℕ) (ns : List (List ℕ)) (j : ℕ)
    → last_column i k ns ≡ some j
    → j < i + length ns
unfolding last_column
last_column-lt i k [] j = λ e. ground arith
last_column-lt i k (n ∷ ns) j = elim (Option-cases (last_column (suc i) k ns)) [
  | inl e ↦ rw e (λ h. ground arith)
  | inr (m, e) ↦ rw e (λ h. let more = last_column-lt (suc i) k ns m e in ground arith)
]
