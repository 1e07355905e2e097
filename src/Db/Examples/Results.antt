-- ===== src/Db/Examples/Results.antt =====
-- The theorems on stored results, at a table of two rows.
use mathlib.Core.List.{reverse}
use mysql_connect_pool.Prelude.{
  ℕ, zero, suc, ◌≡◌, refl, none, some, List, [], ◌∷◌, arith, map, length, get_elem?, ltb,
  if◌then◌else◌, ◌-◌,
}
use mysql_connect_pool.Db.ResultImpl.{
  Access, ok, range_error, Cell, Stored, make_result_impl, lower,
}
use mysql_connect_pool.Db.ResultImpl.Columns.{last_column}
use mysql_connect_pool.Db.Result.Reads.{IsStored, value_length, table_of}
use mysql_connect_pool.Db.Result.Traverse.{read_table, read_backwards, read_table-make_result_impl}
use mysql_connect_pool.Db.Result.Lookup.{
  in_range, cell_at, cell_of, checked_read, checked_number, number_in_range, named_read,
  checked_read-make_result_impl, named_read-make_result_impl,
}

-- Two rows of two columns, `ID` and `id`, with a null.
abbrev two_rows : Stored
two_rows = record {
  num_rows = 2;
  names = (b'I' ∷ b'D' ∷ []) ∷ (b'i' ∷ b'd' ∷ []) ∷ [];
  fetched =
      ((some (b'7' ∷ []) ∷ none ∷ []), (1 ∷ 0 ∷ []))
      ∷ ((some [] ∷ some (b'a' ∷ b'b' ∷ []) ∷ []), (0 ∷ 2 ∷ []))
      ∷ [];
}

wide_rows :
    (i : ℕ) (cells : List Cell) (lengths : List ℕ)
    → get_elem? two_rows.fetched i ≡ some (cells, lengths)
    → length cells ≡ length two_rows.names
wide_rows zero cells lengths h = ground arith
wide_rows (suc zero) cells lengths h = ground arith
wide_rows (suc (suc i)) cells lengths h = ground arith

measured_rows :
    (i : ℕ) (cells : List Cell) (lengths : List ℕ)
    → get_elem? two_rows.fetched i ≡ some (cells, lengths)
    → lengths ≡ map value_length cells
measured_rows zero cells lengths h = ground arith
measured_rows (suc zero) cells lengths h = ground arith
measured_rows (suc (suc i)) cells lengths h = ground arith

two_rows-IsStored : IsStored two_rows
two_rows-IsStored = record {
  counted = refl;
  few_rows = omega arith;
  few_names = omega arith;
  wide = wide_rows;
  measured = measured_rows;
}

read_table_example :
    (read_table 3 (make_result_impl (some two_rows) 0 0) ≡ ok (table_of two_rows))
    × (read_backwards 3 (make_result_impl (some two_rows) 0 0) ≡ ok (reverse (table_of two_rows)))
read_table_example =
    read_table-make_result_impl two_rows 0 0 3 two_rows-IsStored (omega arith) (omega arith)

-- A value of one digit; another throws.
abbrev digit : List ℕ → Access ℕ
digit (c ∷ []) = if ltb c b'0' then range_error else ok (c - b'0')
digit v = range_error

checked_read_example :
    (checked_read 0 0 (make_result_impl (some two_rows) 0 0)
      ≡ in_range (cell_at 0 0 (table_of two_rows)))
    × (checked_number 0 digit 0 0 (make_result_impl (some two_rows) 0 0)
        ≡ number_in_range 0 digit (cell_at 0 0 (table_of two_rows)))
checked_read_example = checked_read-make_result_impl 0 digit two_rows 0 0 0 0 two_rows-IsStored

named_read_example :
    named_read 1 (b'I' ∷ b'd' ∷ []) (make_result_impl (some two_rows) 0 0)
    ≡ in_range
        (cell_of 1 (last_column 0 (lower (b'I' ∷ b'd' ∷ [])) two_rows.names) (table_of two_rows))
named_read_example =
    named_read-make_result_impl two_rows 0 0 1 (b'I' ∷ b'd' ∷ []) two_rows-IsStored (omega arith)
      (omega arith)
