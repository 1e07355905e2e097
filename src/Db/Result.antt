-- ===== src/Db/Result.antt =====
-- db/Result.cpp, db/Result.h and the constructors of db/Row.cpp and db/Field.cpp: a result set, and
-- the rows and fields that point into it.
pub mod Fields
pub mod Value
pub mod ResultIterator
pub mod RowIterator
pub mod Walk
pub mod Reads
pub mod Places
pub mod Traverse
pub mod Numbers
pub mod Lookup
use mysql_connect_pool.Prelude.{ℕ, suc, ◌-◌, ◌+◌, ◌^◌, Bool, List, ltb, leb, ◌==◌, if◌then◌else◌}
use mysql_connect_pool.Prelude.Int.{ℤ, pos, negsuc}
use mysql_connect_pool.Db.ResultImpl.{
  Access, ok, range_error, undefined, check, ResultImpl, column_name, column_number,
}

-- A `size_t` as a `long`, and a `long` as a `size_t`, both of 64 bits.
unfoldable pub to_long : ℕ → ℤ
to_long n = if ltb n (2 ^ 63) then pos n else negsuc (2 ^ 64 - suc n)

unfoldable pub to_size : ℤ → ℕ
to_size (pos n) = n
to_size (negsuc n) = 2 ^ 64 - suc n

-- The result of a signed operation, undefined where a `long` cannot hold it.
unfoldable pub in_long : ℤ → Access ℤ
in_long (pos n) = if ltb n (2 ^ 63) then ok (pos n) else undefined
in_long (negsuc n) = if ltb n (2 ^ 63) then ok (negsuc n) else undefined

pub record Row : Type 0 where
  pub result : ResultImpl
  pub index : ℤ
  pub end_ : ℕ

pub record Field : Type 0 where
  pub row : ℕ
  pub column : ℤ
  pub result : ResultImpl

-- A `Result` is a shared pointer to the implementation, which no call of it changes.
unfoldable pub size : ResultImpl → ℕ
size r = r.rows_number

unfoldable pub capacity : ResultImpl → ℕ
unfolding size
capacity r = size r

unfoldable pub empty : ResultImpl → Bool
unfolding size
empty r = size r == 0

unfoldable pub columns : ResultImpl → ℕ
columns r = r.fields_number

unfoldable pub make_row : ResultImpl → ℕ → Row
unfolding to_long columns
make_row r index = record { result = r; index = to_long index; end_ = columns r }

unfoldable pub make_field : Row → ℕ → Field
unfolding to_size to_long
make_field row column_num = record {
  row = to_size row.index;
  column = to_long column_num;
  result = row.result;
}

unfoldable pub front : ResultImpl → Row
unfolding make_row
front r = make_row r 0

-- `size() - 1`, which wraps for an empty result.
unfoldable pub back : ResultImpl → Row
unfolding make_row size
back r = make_row r (if size r == 0 then 2 ^ 64 - 1 else size r - 1)

-- `operator[]`
unfoldable pub get_row : ResultImpl → ℕ → Access Row
unfolding make_row size
get_row r index = check (ltb index (size r)) (ok (make_row r index))

unfoldable pub at : ResultImpl → ℕ → Access Row
unfolding get_row size
at r index = if leb (size r) index then range_error else get_row r index
