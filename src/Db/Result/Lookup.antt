-- ===== src/Db/Result/Lookup.antt =====
-- Reading one field of a stored result, with the checks of `at` and by the name of its column
-- (db/Result.cpp, db/Row.cpp).
use mysql_connect_pool.Prelude.{
  ℕ, zero, suc, ◌^◌, ◌<◌, ◌≤◌, ◌≡◌, refl, true, false, Option, none, some, List, [], ◌∷◌, arith,
  length, get_elem?, leb, ◌∙◌, lt→ltb,
}
use mysql_connect_pool.Prelude.Int.{pos}
use mysql_connect_pool.Db.ResultImpl.{
  Access, ok, range_error, ◌>>=◌, Cell, Stored, ResultImpl, make_result_impl, column_number, lower,
  found_column,
}
use mysql_connect_pool.Db.ResultImpl.Columns.{
  last_column, last_column-lt, column_number-make_result_impl,
}
use mysql_connect_pool.Db.Result.{size, get_row, at}
use mysql_connect_pool.Db.Result.Fields.{at_field, get_named}
use mysql_connect_pool.Db.Result.Reads.{
  IsTable, IsStored, table_of, length-table_of, make_result_impl-IsTable,
}
use mysql_connect_pool.Db.Result.Places.{
  read_value, c_str-field_place, field_place, row_place, make_row_small, make_field_small,
  read_value-field_place,
}
use mysql_connect_pool.Db.Result.Numbers.{as_with, number_in, as_with-field_place}
use mysql_connect_pool.Db.Result.Walk.{get_elem?-length}

abbrev pub in_range : Option Cell → Access Cell
in_range none = range_error
in_range (some c) = ok c

-- The cell at row i and column j of a table.
abbrev pub cell_in : Option (List Cell) → ℕ → Option Cell
cell_in none j = none
cell_in (some cells) j = get_elem? cells j

abbrev pub cell_at : ℕ → ℕ → List (List Cell) → Option Cell
cell_at i j table = cell_in (get_elem? table i) j

-- `result.at(i).at(j)`, read.
pub checked_read : ℕ → ℕ → ResultImpl → Access Cell
checked_read i j r = at r i >>= λ row. at_field row j >>= read_value

-- `result.at(i).at(j).as<T>()`, for a number.
pub checked_number : {A : Type 0} → A → (List ℕ → Access A) → ℕ → ℕ → ResultImpl → Access A
unfolding as_with
checked_number initial read i j r = at r i >>= λ row. at_field row j >>= λ f. as_with initial read f

abbrev pub number_in_range : {A : Type 0} → A → (List ℕ → Access A) → Option Cell → Access A
number_in_range initial read none = range_error
number_in_range initial read (some c) = number_in initial read c

leb-ge : (n m : ℕ) → n ≤ m → leb n m ≡ true
leb-ge n m h = ground arith

leb-lt : (n m : ℕ) → m < n → leb n m ≡ false
leb-lt n m h = ground arith

get_elem?-none : {A : Type 0} (xs : List A) (i : ℕ) → get_elem? xs i ≡ none → length xs ≤ i
get_elem?-none [] i h = omega arith
get_elem?-none (x ∷ xs) zero h = ground arith
get_elem?-none (x ∷ xs) (suc i) h = omega (arith, get_elem?-none xs i h)

-- `result.at(i)[name]`, read.
pub named_read : ℕ → List ℕ → ResultImpl → Access Cell
named_read i name r = at r i >>= λ row. get_named row name >>= read_value

-- The column of this name, and the cell of it in a table.
abbrev pub cell_of : ℕ → Option ℕ → List (List Cell) → Option Cell
cell_of i none table = none
cell_of i (some j) table = cell_at i j table

module _ (r : ResultImpl) (table : List (List Cell)) (law : IsTable r table) (i : ℕ) where
  at-row_place : i < length table → at r i ≡ ok (row_place r (pos i))
  unfolding at get_row size
  at-row_place h =
      let few = law.few_rows in
      let counted = law.counted in
      rw
        (
          leb-lt r.rows_number i (omega arith),
          lt→ltb i r.rows_number (omega arith),
          make_row_small r i (omega arith),
        )
        refl

  at-range_error : length table ≤ i → at r i ≡ range_error
  unfolding at size
  at-range_error h = let counted = law.counted in rw (leb-ge r.rows_number i (omega arith)) refl

  at_field-place :
      (j : ℕ) → j < r.fields_number → at_field (row_place r (pos i)) j ≡ ok (field_place r i j)
  unfolding at_field
  at_field-place j h =
      let few = law.few_fields in
      rw (leb-lt r.fields_number j h, make_field_small r i j (omega arith)) refl

  at_field-range_error :
      (j : ℕ) → r.fields_number ≤ j → at_field (row_place r (pos i)) j ≡ range_error
  unfolding at_field
  at_field-range_error j h = rw (leb-ge r.fields_number j h) refl

  checked_read-cell :
      (j : ℕ) (cells : List Cell) (c : Option Cell)
      → get_elem? table i ≡ some cells
      → get_elem? cells j ≡ c
      → checked_read i j r ≡ in_range c
  unfolding checked_read
  checked_read-cell j cells none e g =
      let wide = law.wide i cells e in
      let past = get_elem?-none cells j g in
      rw (at-row_place (get_elem?-length table i e), at_field-range_error j (omega arith)) refl
  checked_read-cell j cells (some c) e g =
      let wide = law.wide i cells e in
      let h = get_elem?-length cells j g in
      rw (at-row_place (get_elem?-length table i e), at_field-place j (omega arith))
        (read_value-field_place r table law i j cells c e g)

  checked_read-row :
      (j : ℕ) (row : Option (List Cell))
      → get_elem? table i ≡ row
      → checked_read i j r ≡ in_range (cell_in row j)
  unfolding checked_read
  checked_read-row j none e = rw (at-range_error (get_elem?-none table i e)) refl
  checked_read-row j (some cells) e = checked_read-cell j cells (get_elem? cells j) e refl

  module _ {A : Type 0} (initial : A) (read : List ℕ → Access A) (j : ℕ) where
    checked_number-cell :
        (cells : List Cell) (c : Option Cell)
        → get_elem? table i ≡ some cells
        → get_elem? cells j ≡ c
        → checked_number initial read i j r ≡ number_in_range initial read c
    unfolding checked_number
    checked_number-cell cells none e g =
        let wide = law.wide i cells e in
        let past = get_elem?-none cells j g in
        rw (at-row_place (get_elem?-length table i e), at_field-range_error j (omega arith)) refl
    checked_number-cell cells (some c) e g =
        let wide = law.wide i cells e in
        let h = get_elem?-length cells j g in
        rw (at-row_place (get_elem?-length table i e), at_field-place j (omega arith))
          (as_with-field_place initial read r i j c
            (c_str-field_place r i j ∙ (law.value i j cells c e g).0))

    checked_number-row :
        (row : Option (List Cell))
        → get_elem? table i ≡ row
        → checked_number initial read i j r ≡ number_in_range initial read (cell_in row j)
    unfolding checked_number
    checked_number-row none e = rw (at-range_error (get_elem?-none table i e)) refl
    checked_number-row (some cells) e = checked_number-cell cells (get_elem? cells j) e refl

  get_named-place :
      (name : List ℕ) (j : ℕ)
      → j < 2 ^ 63
      → column_number name r ≡ ok j
      → get_named (row_place r (pos i)) name ≡ ok (field_place r i j)
  unfolding get_named
  get_named-place name j h e = rw (e, make_field_small r i j h) refl

  get_named-range_error :
      (name : List ℕ)
      → column_number name r ≡ range_error
      → get_named (row_place r (pos i)) name ≡ range_error
  unfolding get_named
  get_named-range_error name e = rw e refl

  read_value-cell :
      (k : ℕ) (cells : List Cell) (c : Option Cell)
      → k < r.fields_number
      → get_elem? table i ≡ some cells
      → get_elem? cells k ≡ c
      → read_value (field_place r i k) ≡ in_range c
  read_value-cell k cells none h e g =
      let wide = law.wide i cells e in let past = get_elem?-none cells k g in absurd (omega arith)
  read_value-cell k cells (some c) h e g = read_value-field_place r table law i k cells c e g

  read_value-row :
      (k : ℕ) (row : Option (List Cell))
      → i < length table
      → k < r.fields_number
      → get_elem? table i ≡ row
      → read_value (field_place r i k) ≡ in_range (cell_in row k)
  read_value-row k none b h e = let past = get_elem?-none table i e in absurd (omega arith)
  read_value-row k (some cells) b h e = read_value-cell k cells (get_elem? cells k) h e refl

  named_read-IsTable :
      (name : List ℕ) (j : Option ℕ)
      → i < length table
      → column_number name r ≡ found_column j
      → ((k : ℕ) → j ≡ some k → k < r.fields_number)
      → named_read i name r ≡ in_range (cell_of i j table)
  unfolding named_read
  named_read-IsTable name none h e b = rw (at-row_place h, get_named-range_error name e) refl
  named_read-IsTable name (some k) h e b =
      let few = law.few_fields in
      let known = b k refl in
      let there = get_named-place name k (omega arith) e in
      rw (at-row_place h, there) (read_value-row k (get_elem? table i) h known refl)

-- Reading a stored result through the two checked accesses, as a text or as a number, is a look-up in
-- the table that the client gave: `RangeError` where the table has no such row or no such column,
-- else the value or the null, for a number what the conversion makes of the value's text, or its
-- default for a null; no assertion fails and nothing is read outside the arrays.
pub checked_read-make_result_impl :
    {A : Type 0} (initial : A) (read : List ℕ → Access A) (s : Stored) (affected insert_id i j : ℕ)
    → IsStored s
    → (checked_read i j (make_result_impl (some s) affected insert_id)
        ≡ in_range (cell_at i j (table_of s)))
      × (checked_number initial read i j (make_result_impl (some s) affected insert_id)
          ≡ number_in_range initial read (cell_at i j (table_of s)))
checked_read-make_result_impl initial read s affected insert_id i j law =
    let r = make_result_impl (some s) affected insert_id in
    let kept = make_result_impl-IsTable s affected insert_id law in
    (
      checked_read-row r (table_of s) kept i j (get_elem? (table_of s) i) refl,
      checked_number-row r (table_of s) kept i initial read j (get_elem? (table_of s) i) refl,
    )

-- In a row of a stored result that has columns, a read by name gives the cell under the last column
-- whose name is the same without regard to case, and throws `RangeError` when no column has the name.
pub named_read-make_result_impl :
    (s : Stored) (affected insert_id i : ℕ) (name : List ℕ)
    → IsStored s
    → 0 < length s.names
    → i < length s.fetched
    → named_read i name (make_result_impl (some s) affected insert_id)
      ≡ in_range (cell_of i (last_column 0 (lower name) s.names) (table_of s))
unfolding make_result_impl
named_read-make_result_impl s affected insert_id i name law wide h =
    let found : column_number name (make_result_impl (some s) affected insert_id)
        ≡ found_column (last_column 0 (lower name) s.names) =
      column_number-make_result_impl name s affected insert_id
      ∙ rw (lt→ltb 0 (length s.names) wide) refl in
    named_read-IsTable (make_result_impl (some s) affected insert_id) (table_of s)
      (make_result_impl-IsTable s affected insert_id law) i name
      (last_column 0 (lower name) s.names) (rw length-table_of h) found
      (λ k e. let known = last_column-lt 0 (lower name) s.names k e in omega arith)
