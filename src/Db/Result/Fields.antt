-- ===== src/Db/Result/Fields.antt =====
-- db/Row.cpp and db/Row.h: the fields of a row.
use mysql_connect_pool.Prelude.{ℕ, List, ltb, leb, if◌then◌else◌}
use mysql_connect_pool.Prelude.Int.{ℤ, pos, negsuc}
use mysql_connect_pool.Db.ResultImpl.{
  Access, ok, range_error, assertion, ◌>>=◌, check, column_number,
}
use mysql_connect_pool.Db.Result.{Row, Field, make_field}

unfoldable pub row_size : Row → ℕ
row_size r = r.end_

-- `operator[]` of a `SizeType`
unfoldable pub get_field : Row → ℕ → Access Field
unfolding make_field
get_field r index = check (ltb index r.end_) (ok (make_field r index))

-- `operator[]` of an `int`
unfoldable pub get_field_int : Row → ℤ → Access Field
unfolding make_field
get_field_int r (pos i) = check (ltb i r.end_) (ok (make_field r i))
get_field_int r (negsuc i) = assertion

-- `operator[]` of a name; `at` of a name does the same.
unfoldable pub get_named : Row → List ℕ → Access Field
unfolding make_field column_number
get_named r name = column_number name r.result >>= λ n. ok (make_field r n)

unfoldable pub at_field : Row → ℕ → Access Field
unfolding make_field
at_field r index = if leb r.end_ index then range_error else ok (make_field r index)
