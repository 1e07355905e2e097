-- ===== src/Db/Result/Reads.antt =====
-- Reading a stored result by index (db/Result.cpp, db/Row.cpp, db/Field.cpp).
use mysql_connect_pool.Prelude.{
  length-map, ℕ, zero, suc, ◌^◌, ◌<◌, ◌≡◌, refl, false, none, some, List, [], ◌∷◌, arith, length,
  get_elem?, map, take, ◌==◌, sym, ◌∙◌, lt→ltb,
}
use mysql_connect_pool.Prelude.Int.{pos}
use mysql_connect_pool.Db.ResultImpl.{
  Access, ok, Cell, Stored, ResultImpl, make_result_impl, put_rows, get_value, get_length, row_at,
  in_table,
}
use mysql_connect_pool.Db.Result.{to_long}
use mysql_connect_pool.Db.Result.Walk.{get_elem?-length}

abbrev pub value_length : Cell → ℕ
value_length none = 0
value_length (some v) = length v

-- What the client's documentation says of a stored result: it counts its rows, gives each row as
-- many values as there are fields, and each value its length in bytes, 0 for a null. The sizes are
-- within a `long`.
pub record IsStored (s : Stored) : Type 0 where
  pub counted : s.num_rows ≡ length s.fetched
  pub few_rows : s.num_rows < 2 ^ 63
  pub few_names : length s.names < 2 ^ 63
  pub wide :
      (i : ℕ) (cells : List Cell) (lengths : List ℕ)
      → get_elem? s.fetched i ≡ some (cells, lengths)
      → length cells ≡ length s.names
  pub measured :
      (i : ℕ) (cells : List Cell) (lengths : List ℕ)
      → get_elem? s.fetched i ≡ some (cells, lengths)
      → lengths ≡ map value_length cells

pub to_long_small : (n : ℕ) → n < 2 ^ 63 → to_long n ≡ pos n
unfolding to_long
to_long_small n h = rw (lt→ltb n (2 ^ 63) h) refl

take-map :
    (cells : List Cell) → take (length cells) (map value_length cells) ≡ map value_length cells
take-map [] = refl
take-map (c ∷ cs) = rw (take-map cs) refl

get_elem?-map :
    (cells : List Cell) (j : ℕ) {c : Cell}
    → get_elem? cells j ≡ some c
    → get_elem? (map value_length cells) j ≡ some (value_length c)
get_elem?-map [] j h = ground arith
get_elem?-map (c ∷ cs) zero h = ground arith
get_elem?-map (c ∷ cs) (suc j) h = get_elem?-map cs j h

get_elem?-put_rows :
    (w : ℕ) (rows : List (List Cell × List ℕ)) (i : ℕ) {cells : List Cell} {lengths : List ℕ}
    → get_elem? rows i ≡ some (cells, lengths)
    → get_elem? (put_rows w rows) i ≡ some (cells, take w lengths)
unfolding put_rows
get_elem?-put_rows w [] i h = ground arith
get_elem?-put_rows w ((c, l) ∷ rows) zero h = ground arith
get_elem?-put_rows w ((c, l) ∷ rows) (suc i) h = get_elem?-put_rows w rows i h

pub take-length : (v : List ℕ) → take (length v) v ≡ v
take-length [] = refl
take-length (c ∷ v) = rw (take-length v) refl

zero-== : (n m : ℕ) → n < m → (m == 0) ≡ false
zero-== n m h = ground arith

module _ (s : Stored) (affected insert_id : ℕ) (law : IsStored s) (i : ℕ) (cells : List Cell)
    (lengths : List ℕ) (row : get_elem? s.fetched i ≡ some (cells, lengths)) where
  row_lt : i < s.num_rows
  row_lt = let h = get_elem?-length s.fetched i row in let e = law.counted in omega arith

  kept : take (length s.names) lengths ≡ map value_length cells
  kept = rw (law.measured i cells lengths row, sym (law.wide i cells lengths row)) (take-map cells)

  row_at-make_result_impl :
      row_at i (make_result_impl (some s) affected insert_id) ≡ ok (cells, map value_length cells)
  unfolding row_at make_result_impl
  row_at-make_result_impl =
      let h = row_lt in
      rw
        (
          lt→ltb 0 s.num_rows (omega arith),
          get_elem?-put_rows (length s.names) s.fetched i row,
          kept,
        )
        refl

  module _ {ℓ} {A : Type ℓ} (empty : A) (found : Access A) (j : ℕ) {c : Cell}
      (value : get_elem? cells j ≡ some c) where
    column_lt : j < length s.names
    column_lt =
        let h = get_elem?-length cells j value in
        let e = law.wide i cells lengths row in omega arith

    in_table-make_result_impl :
        in_table empty i j (make_result_impl (some s) affected insert_id) found ≡ found
    unfolding in_table make_result_impl
    in_table-make_result_impl =
        rw
          (
            zero-== i s.num_rows row_lt,
            zero-== j (length s.names) column_lt,
            lt→ltb i s.num_rows row_lt,
            lt→ltb j (length s.names) column_lt,
          )
          refl

  module _ (j : ℕ) {c : Cell} (value : get_elem? cells j ≡ some c) where
    pub get_value-make_result_impl :
        get_value i j (make_result_impl (some s) affected insert_id) ≡ ok c
    unfolding get_value
    get_value-make_result_impl =
        in_table-make_result_impl {A = Cell} none _ j value
        ∙ rw (row_at-make_result_impl, value) refl

    pub get_length-make_result_impl :
        get_length i j (make_result_impl (some s) affected insert_id) ≡ ok (value_length c)
    unfolding get_length
    get_length-make_result_impl =
        in_table-make_result_impl {A = ℕ} 0 _ j value
        ∙ rw (row_at-make_result_impl, get_elem?-map cells j value) refl

-- What the reads of a result give, as a table of rows.
pub record IsTable (r : ResultImpl) (table : List (List Cell)) : Type 0 where
  pub counted : r.rows_number ≡ length table
  pub few_rows : r.rows_number < 2 ^ 63
  pub few_fields : r.fields_number < 2 ^ 63
  pub wide :
      (i : ℕ) (cells : List Cell) → get_elem? table i ≡ some cells → length cells ≡ r.fields_number
  pub value :
      (i j : ℕ) (cells : List Cell) (c : Cell)
      → get_elem? table i ≡ some cells
      → get_elem? cells j ≡ some c
      → (get_value i j r ≡ ok c) × (get_length i j r ≡ ok (value_length c))

-- The values that the client gave.
pub table_of : Stored → List (List Cell)
table_of s = map (λ row. row.0) s.fetched

pub length-table_of : (s : Stored) → length (table_of s) ≡ length s.fetched
unfolding table_of
length-table_of s = length-map s.fetched (λ row. row.0)

fetched-table_of :
    (rows : List (List Cell × List ℕ)) (i : ℕ) (cells : List Cell)
    → get_elem? (map (λ row. row.0) rows) i ≡ some cells
    → (lengths : List ℕ) × (get_elem? rows i ≡ some (cells, lengths))
fetched-table_of [] i cells h = ground arith
fetched-table_of ((c, l) ∷ rows) zero cells h = (l, ground arith)
fetched-table_of ((c, l) ∷ rows) (suc i) cells h = fetched-table_of rows i cells h

pub make_result_impl-IsTable :
    (s : Stored) (affected insert_id : ℕ)
    → IsStored s
    → IsTable (make_result_impl (some s) affected insert_id) (table_of s)
unfolding make_result_impl table_of
make_result_impl-IsTable s affected insert_id law = record {
  counted = law.counted ∙ sym (length-map s.fetched (λ row. row.0));
  few_rows = law.few_rows;
  few_fields = law.few_names;
  wide = λ i cells h. let f = fetched-table_of s.fetched i cells h in law.wide i cells f.0 f.1;
  value = λ i j cells c h g.
      let f = fetched-table_of s.fetched i cells h in
      (
        get_value-make_result_impl s affected insert_id law i cells f.0 f.1 j g,
        get_length-make_result_impl s affected insert_id law i cells f.0 f.1 j g,
      );
}
