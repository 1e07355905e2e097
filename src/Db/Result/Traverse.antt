-- ===== src/Db/Result/Traverse.antt =====
-- The loops over a result and over a row (db/ResultIterator.h, db/RowIterator.h), as the callers of
-- db/Result.h and db/Row.h write them.
use mathlib.Core.List.{reverse}
use mysql_connect_pool.Prelude.{
  zero_add, subst, ℕ, zero, suc, ◌+◌, ◌-◌, ◌<◌, ◌≡◌, some, List, arith, length, get_elem?, ◌==◌,
  sym, ◌∙◌,
}
use mysql_connect_pool.Prelude.Int.{pos, eq_ℤ}
use mysql_connect_pool.Db.ResultImpl.{Access, ok, ◌>>=◌, Cell, Stored, ResultImpl, make_result_impl}
use mysql_connect_pool.Db.Result.{Row, size}
use mysql_connect_pool.Db.Result.Fields.{row_size}
use mysql_connect_pool.Db.Result.ResultIterator.{
  begin_rows, end_rows, next_row, same_row, rbegin_rows, rend_rows, reverse_next_row,
}
use mysql_connect_pool.Db.Result.RowIterator.{begin_fields, end_fields, next_field, same_field}
use mysql_connect_pool.Db.Result.Walk.{
  walk, walk-place, length-reverse, get_elem?-length, get_elem?-reverse,
}
use mysql_connect_pool.Db.Result.Reads.{table_of, make_result_impl-IsTable, IsTable, IsStored}
use mysql_connect_pool.Db.Result.Places.{
  read_value, read_value-field_place, field_place, row_place, before_place, make_row_small,
  make_field_small, next_row-row_place, next_field-field_place, previous_row-row_place,
  rbegin_rows-row_place, rend_rows-row_place,
}

sub_zero : (n : ℕ) → n - 0 ≡ n
sub_zero n = omega arith

sub_self : (n : ℕ) → n - n ≡ 0
sub_self n = omega arith

-- `for (auto field : row)`
pub read_row : ℕ → Row → Access (List Cell)
unfolding walk
read_row fuel row = walk same_field next_field read_value fuel (begin_fields row) (end_fields row)

-- `for (auto row : result)`, with the loop over the fields inside.
pub read_table : ℕ → ResultImpl → Access (List (List Cell))
unfolding walk
read_table fuel r = walk same_row next_row (read_row fuel) fuel (begin_rows r) (end_rows r)

-- `for (auto it = result.rbegin(); it != result.rend(); ++it)`, likewise.
pub read_backwards : ℕ → ResultImpl → Access (List (List Cell))
unfolding walk
read_backwards fuel r = rbegin_rows r >>= λ it.
    rend_rows r >>= λ last. walk same_row reverse_next_row (read_row fuel) fuel it last

module _ (r : ResultImpl) (table : List (List Cell)) (law : IsTable r table) where
  read_row-row_place :
      (i fuel : ℕ) (cells : List Cell)
      → get_elem? table i ≡ some cells
      → r.fields_number < fuel
      → read_row fuel (row_place r (pos i)) ≡ ok cells
  unfolding read_row begin_fields end_fields row_size same_field
  read_row-row_place i fuel cells row h =
      let few = law.few_fields in
      let wide = law.wide i cells row in
      rw (make_field_small r i 0 (omega arith), make_field_small r i r.fields_number few)
        (walk-place same_field next_field read_value (field_place r i) r.fields_number
          (ground arith) (λ j b. ground arith) (λ j b. next_field-field_place r i j (omega arith))
          cells 0 fuel (omega arith) (omega arith)
          (λ j c g. rw zero_add (read_value-field_place r table law i j cells c row g)))

  pub read_table-IsTable :
      (fuel : ℕ) → r.rows_number < fuel → r.fields_number < fuel → read_table fuel r ≡ ok table
  unfolding read_table begin_rows end_rows size same_row
  read_table-IsTable fuel h w =
      let few = law.few_rows in
      let counted = law.counted in
      rw (make_row_small r 0 (omega arith), make_row_small r r.rows_number few)
        (walk-place same_row next_row (read_row fuel) (λ i. row_place r (pos i)) r.rows_number
          (ground arith) (λ i b. ground arith) (λ i b. next_row-row_place r i (omega arith)) table 0
          fuel (omega arith) (omega arith)
          (λ i cells g. rw zero_add (read_row-row_place i fuel cells g w)))

  -- The place of a reverse iterator after k steps.
  abbrev back_place : ℕ → Row
  back_place k = row_place r (before_place (r.rows_number - k))

  reverse_next_row-back_place :
      (k : ℕ) → k < r.rows_number → reverse_next_row (back_place k) ≡ ok (back_place (suc k))
  unfolding reverse_next_row
  reverse_next_row-back_place k h =
      let few = law.few_rows in
      let e : r.rows_number - k ≡ suc (r.rows_number - suc k) = omega arith in
      rw e (previous_row-row_place r (r.rows_number - suc k) (omega arith))

  same-before_place : (i j : ℕ) → eq_ℤ (before_place i) (before_place j) ≡ (i == j)
  same-before_place zero zero = ground arith
  same-before_place zero (suc j) = ground arith
  same-before_place (suc i) zero = ground arith
  same-before_place (suc i) (suc j) = ground arith

  read_row-back_place :
      (fuel : ℕ)
      → r.fields_number < fuel
      → (k : ℕ) (cells : List Cell) → get_elem? (reverse table) k ≡ some cells
      → read_row fuel (back_place (0 + k)) ≡ ok cells
  read_row-back_place fuel w k cells g =
      let few = law.few_rows in
      let counted = law.counted in
      let h : k < length table =
        subst (λ n. k < n) (length-reverse table) (get_elem?-length (reverse table) k g) in
      let e : r.rows_number - (0 + k) ≡ suc (length table - suc k) = omega arith in
      rw e (
        read_row-row_place (length table - suc k) fuel cells (sym (get_elem?-reverse table k h) ∙ g)
          w)

  pub read_backwards-IsTable :
      (fuel : ℕ)
      → r.rows_number < fuel
      → r.fields_number < fuel
      → read_backwards fuel r ≡ ok (reverse table)
  unfolding read_backwards same_row
  read_backwards-IsTable fuel h w =
      let few = law.few_rows in
      let counted = law.counted in
      let measured = length-reverse table in
      let walk_back =
        walk-place same_row reverse_next_row (read_row fuel) back_place r.rows_number
          (same-before_place (r.rows_number - r.rows_number) (r.rows_number - r.rows_number)
            ∙ ground arith)
          (λ k b.
            same-before_place (r.rows_number - k) (r.rows_number - r.rows_number) ∙ ground arith)
          reverse_next_row-back_place (reverse table) 0 fuel (omega arith) (omega arith)
          (read_row-back_place fuel w) in
      rw (rbegin_rows-row_place r few, rend_rows-row_place) (rw (sub_zero, sub_self) at walk_back)

-- A stored result that keeps what the client promises is read whole, in order, by the two nested
-- range-for loops, nulls as nulls, and in the opposite order by the loop from `rbegin` to `rend`: no
-- read throws, fails an assertion or is undefined, when the fuel is more than the rows and more than
-- the columns.
pub read_table-make_result_impl :
    (s : Stored) (affected insert_id fuel : ℕ)
    → IsStored s
    → length s.fetched < fuel
    → length s.names < fuel
    → (read_table fuel (make_result_impl (some s) affected insert_id) ≡ ok (table_of s))
      × (read_backwards fuel (make_result_impl (some s) affected insert_id)
          ≡ ok (reverse (table_of s)))
unfolding make_result_impl
read_table-make_result_impl s affected insert_id fuel law h w =
    let counted = law.counted in
    let r = make_result_impl (some s) affected insert_id in
    let kept = make_result_impl-IsTable s affected insert_id law in
    (
      read_table-IsTable r (table_of s) kept fuel (omega arith) w,
      read_backwards-IsTable r (table_of s) kept fuel (omega arith) w,
    )
