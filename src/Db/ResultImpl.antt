-- ===== src/Db/ResultImpl.antt =====
-- MySQLImpl/MySQLResultImpl.cpp: a stored result of the client, kept as a table. A text is the list
-- of its bytes.
pub mod Columns
use mysql_connect_pool.Prelude.{
  ℕ, zero, suc, ◌+◌, ◌-◌, ◌^◌, Bool, true, false, not, ◌&&◌, ◌||◌, Option, none, some, List, [],
  ◌∷◌, ◌++◌, map, ltb, leb, ◌==◌, if◌then◌else◌, length, get_elem?, take,
}
use mysql_connect_pool.Db.ArrayParser.{same_text}

-- How a call ends: with a value, by throwing `RangeError`, by a failed assertion, or by a read that
-- is undefined.
pub data Access {ℓ} (A : Type ℓ) : Type ℓ where
  ok : A → Access A
  range_error assertion undefined : Access A

infixl 5 ◌>>=◌
abbrev pub ◌>>=◌ {ℓ κ} : {A : Type ℓ} {B : Type κ} → Access A → (A → Access B) → Access B
ok a >>= f = f a
range_error >>= f = range_error
assertion >>= f = assertion
undefined >>= f = undefined

abbrev pub check {ℓ} : {A : Type ℓ} → Bool → Access A → Access A
check b o = if b then o else assertion

-- A value as the client points to it, none for a null pointer.
abbrev pub Cell : Type 0
Cell = Option (List ℕ)

-- What the client tells of a `MYSQL_RES`: `mysql_num_rows`; the names of `mysql_fetch_fields`, which
-- are as many as `mysql_num_fields` says; and for each call of `mysql_fetch_row` until it returns
-- null the values, and the lengths of `mysql_fetch_lengths`.
pub record Stored : Type 0 where
  pub num_rows : ℕ
  pub names : List (List ℕ)
  pub fetched : List (List Cell × List ℕ)

pub record ResultImpl : Type 0 where
  pub rows_number : ℕ
  pub fields_number : ℕ
  -- `fieldArray_` by its names, null for a statement that returns no rows
  pub field_array : Option (List (List ℕ))
  pub affected_rows : ℕ
  pub insert_id : ℕ
  pub fields_map : Option (List (List ℕ × ℕ))
  pub rows : Option (List (List Cell × List ℕ))

-- `tolower`, and `std::transform` by it
unfoldable pub to_lower : ℕ → ℕ
to_lower c = if leb b'A' c && leb c b'Z' then c + 32 else c

unfoldable pub lower : List ℕ → List ℕ
unfolding to_lower
lower [] = []
lower (c ∷ cs) = to_lower c ∷ lower cs

-- `(*fieldsMapPtr_)[name] = i`, and `find`
unfoldable pub assign : List ℕ → ℕ → List (List ℕ × ℕ) → List (List ℕ × ℕ)
unfolding same_text
assign k v [] = (k, v) ∷ []
assign k v ((j, w) ∷ m) = if same_text j k then (k, v) ∷ m else (j, w) ∷ assign k v m

unfoldable pub find_name : List ℕ → List (List ℕ × ℕ) → Option ℕ
unfolding same_text
find_name k [] = none
find_name k ((j, v) ∷ m) = if same_text j k then some v else find_name k m

-- The loop over the fields, from field i on.
unfoldable pub put_names : ℕ → List (List ℕ) → List (List ℕ × ℕ) → List (List ℕ × ℕ)
unfolding assign lower
put_names i [] m = m
put_names i (n ∷ ns) m = put_names (suc i) ns (assign (lower n) i m)

-- The loop of `mysql_fetch_row`, with `vLens` of as many lengths as there are fields.
unfoldable pub put_rows : ℕ → List (List Cell × List ℕ) → List (List Cell × List ℕ)
put_rows fields [] = []
put_rows fields ((cells, lengths) ∷ more) = (cells, take fields lengths) ∷ put_rows fields more

-- The constructor.
unfoldable pub make_result_impl : Option Stored → ℕ → ℕ → ResultImpl
unfolding put_names put_rows
make_result_impl none affected insert_id = record {
  rows_number = 0;
  fields_number = 0;
  field_array = none;
  affected_rows = affected;
  insert_id = insert_id;
  fields_map = none;
  rows = none;
}
make_result_impl (some s) affected insert_id = record {
  rows_number = s.num_rows;
  fields_number = length s.names;
  field_array = some s.names;
  affected_rows = affected;
  insert_id = insert_id;
  fields_map = if ltb 0 (length s.names) then some (put_names 0 s.names []) else none;
  rows = if ltb 0 s.num_rows then some (put_rows (length s.names) s.fetched) else none;
}

-- A read of an array in memory.
abbrev pub read_at {ℓ} : {A : Type ℓ} → Option A → Access A
read_at none = undefined
read_at (some a) = ok a

unfoldable pub column_name : ℕ → ResultImpl → Access (List ℕ)
column_name number r =
    check (ltb number r.fields_number)
      (elim r.field_array [ none ↦ ok [] | some names ↦ read_at (get_elem? names number) ])

-- -1 as a `RowSizeType`, of 64 bits
abbrev pub no_column : ℕ
no_column = 2 ^ 64 - 1

abbrev pub found_column : Option ℕ → Access ℕ
found_column none = range_error
found_column (some i) = ok i

unfoldable pub column_number : List ℕ → ResultImpl → Access ℕ
unfolding lower find_name
column_number col_name r = elim r.fields_map [
  | none ↦ ok no_column
  | some m ↦ found_column (find_name (lower col_name) m)
]

-- `(*rowsPtr_)[row]`
unfoldable pub row_at : ℕ → ResultImpl → Access (List Cell × List ℕ)
row_at row r = elim r.rows [ none ↦ undefined | some rows ↦ read_at (get_elem? rows row) ]

-- The head of `getValue` and of `getLength`: `empty` for a result with no rows or no fields.
unfoldable pub in_table {ℓ} : {A : Type ℓ} → A → ℕ → ℕ → ResultImpl → Access A → Access A
in_table empty row column r found =
    if r.rows_number == 0 || r.fields_number == 0
    then ok empty
    else check (ltb row r.rows_number) (check (ltb column r.fields_number) found)

unfoldable pub get_value : ℕ → ℕ → ResultImpl → Access Cell
unfolding in_table row_at
get_value row column r =
    in_table none row column r
      (row_at row r >>= λ (cells, lengths). read_at (get_elem? cells column))

abbrev pub is_none : Cell → Bool
is_none none = true
is_none (some v) = false

unfoldable pub is_null : ℕ → ℕ → ResultImpl → Access Bool
unfolding get_value
is_null row column r = get_value row column r >>= λ v. ok (is_none v)

unfoldable pub get_length : ℕ → ℕ → ResultImpl → Access ℕ
unfolding in_table row_at
get_length row column r =
    in_table 0 row column r
      (row_at row r >>= λ (cells, lengths). read_at (get_elem? lengths column))
