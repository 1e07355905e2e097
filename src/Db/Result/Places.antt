-- ===== src/Db/Result/Places.antt =====
-- The places that rows, fields and their iterators stand at (db/ResultIterator.h, db/RowIterator.h),
-- and the value read at a place.
use mysql_connect_pool.Prelude.{
  ap, ℕ, zero, suc, ◌^◌, ◌<◌, ◌≡◌, refl, true, none, some, List, arith, if◌then◌else◌, length,
  get_elem?, leb, ◌∙◌, lt→ltb,
}
use mysql_connect_pool.Prelude.Int.{ℤ, pos, negsuc, ◌+ℤ◌, ◌-ℤ◌}
use mysql_connect_pool.Db.ResultImpl.{
  Access, ok, ◌>>=◌, Cell, ResultImpl, is_null, is_none, get_value, get_length,
}
use mysql_connect_pool.Db.Result.{Row, Field, in_long, size, make_row, make_field}
use mysql_connect_pool.Db.Result.Value.{is_null_field, c_str, field_length, text_of, oid, as_string}
use mysql_connect_pool.Db.Result.ResultIterator.{
  begin_rows, end_rows, next_row, previous_row, rbegin_rows, rend_rows,
}
use mysql_connect_pool.Db.Result.RowIterator.{next_field}
use mysql_connect_pool.Db.Result.Reads.{IsTable, value_length, to_long_small, take-length}

-- A field as a text, or as a null.
pub read_value : Field → Access Cell
read_value f = is_null_field f >>= λ b. if b then ok none else (as_string f >>= λ v. ok (some v))

leb_refl : (n : ℕ) → leb n n ≡ true
leb_refl n = ground arith

text_of-value : (v : List ℕ) → text_of (some v) (length v) ≡ ok v
unfolding text_of
text_of-value v = rw (leb_refl (length v), take-length v) refl

is_null_field-c_str : (f : Field) → is_null_field f ≡ (c_str f >>= λ v. ok (is_none v))
unfolding is_null_field is_null c_str
is_null_field-c_str f = refl

as_string-c_str : (f : Field) → as_string f ≡ (c_str f >>= λ v. field_length f >>= λ n. text_of v n)
unfolding as_string oid
as_string-c_str f = refl

pub read_value-c_str :
    (f : Field) (c : Cell)
    → c_str f ≡ ok c
    → field_length f ≡ ok (value_length c)
    → read_value f ≡ ok c
unfolding read_value
read_value-c_str f none e l = rw (is_null_field-c_str, e) refl
read_value-c_str f (some v) e l =
    rw (is_null_field-c_str, as_string-c_str, e, l, text_of-value v) refl

-- The field at row i and column j, and the row at index i.
abbrev pub field_place : ResultImpl → ℕ → ℕ → Field
field_place r i j = record { row = i; column = pos j; result = r }

abbrev pub row_place : ResultImpl → ℤ → Row
row_place r i = record { result = r; index = i; end_ = r.fields_number }

pub make_row_small : (r : ResultImpl) (i : ℕ) → i < 2 ^ 63 → make_row r i ≡ row_place r (pos i)
unfolding make_row
make_row_small r i h = rw (to_long_small i h) refl

pub make_field_small :
    (r : ResultImpl) (i j : ℕ) → j < 2 ^ 63 → make_field (row_place r (pos i)) j ≡ field_place r i j
unfolding make_field
make_field_small r i j h = rw (to_long_small j h) refl

pub c_str-field_place : (r : ResultImpl) (i j : ℕ) → c_str (field_place r i j) ≡ get_value i j r
unfolding c_str
c_str-field_place r i j = refl

pub field_length-field_place :
    (r : ResultImpl) (i j : ℕ) → field_length (field_place r i j) ≡ get_length i j r
unfolding field_length
field_length-field_place r i j = refl

pos-suc : (i : ℕ) → pos i +ℤ pos 1 ≡ pos (suc i)
unfolding ◌+ℤ◌
pos-suc i = ground arith

pos-pred : (i : ℕ) → pos (suc i) -ℤ pos 1 ≡ pos i
unfolding ◌-ℤ◌
pos-pred i = ground arith

in_long-pos : (i : ℕ) → i < 2 ^ 63 → in_long (pos i) ≡ ok (pos i)
unfolding in_long
in_long-pos i h = rw (lt→ltb i (2 ^ 63) h) refl

-- The places of a reverse iterator: that of k elements before it is at k - 1.
abbrev pub before_place : ℕ → ℤ
before_place zero = negsuc 0
before_place (suc i) = pos i

pred_place : (k : ℕ) → k < 2 ^ 63 → in_long (pos k -ℤ pos 1) ≡ ok (before_place k)
unfolding in_long ◌-ℤ◌
pred_place zero h = refl
pred_place (suc k) h = rw (pos-pred k, in_long-pos k (omega arith)) refl

pub next_row-row_place :
    (r : ResultImpl) (i : ℕ)
    → suc i < 2 ^ 63
    → next_row (row_place r (pos i)) ≡ ok (row_place r (pos (suc i)))
unfolding next_row
next_row-row_place r i h = rw (pos-suc, in_long-pos (suc i) h) refl

pub next_field-field_place :
    (r : ResultImpl) (i j : ℕ)
    → suc j < 2 ^ 63
    → next_field (field_place r i j) ≡ ok (field_place r i (suc j))
unfolding next_field
next_field-field_place r i j h = rw (pos-suc, in_long-pos (suc j) h) refl

pub previous_row-row_place :
    (r : ResultImpl) (k : ℕ)
    → k < 2 ^ 63
    → previous_row (row_place r (pos k)) ≡ ok (row_place r (before_place k))
unfolding previous_row
previous_row-row_place r k h = rw (pred_place k h) refl

pub rbegin_rows-row_place :
    (r : ResultImpl)
    → r.rows_number < 2 ^ 63
    → rbegin_rows r ≡ ok (row_place r (before_place r.rows_number))
unfolding rbegin_rows end_rows size
rbegin_rows-row_place r h =
    ap previous_row (make_row_small r r.rows_number h) ∙ (previous_row-row_place r r.rows_number h)

pub rend_rows-row_place : (r : ResultImpl) → rend_rows r ≡ ok (row_place r (before_place 0))
unfolding rend_rows begin_rows
rend_rows-row_place r =
    ap previous_row (make_row_small r 0 (omega arith)) ∙ (previous_row-row_place r 0 (omega arith))

module _ (r : ResultImpl) (table : List (List Cell)) (law : IsTable r table) where
  pub read_value-field_place :
      (i j : ℕ) (cells : List Cell) (c : Cell)
      → get_elem? table i ≡ some cells
      → get_elem? cells j ≡ some c
      → read_value (field_place r i j) ≡ ok c
  read_value-field_place i j cells c row value =
      let v = law.value i j cells c row value in
      read_value-c_str (field_place r i j) c (c_str-field_place r i j ∙ v.0)
        (field_length-field_place r i j ∙ v.1)
