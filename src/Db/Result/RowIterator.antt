-- ===== src/Db/Result/RowIterator.antt =====
-- db/RowIterator.h, and the iterators of db/Row.cpp: a `ConstRowIterator` and a
-- `ConstReverseRowIterator` are the field they stand at.
use mysql_connect_pool.Prelude.{Bool}
use mysql_connect_pool.Prelude.Int.{ℤ, pos, ◌+ℤ◌, ◌-ℤ◌, eq_ℤ, lt_ℤ}
use mysql_connect_pool.Db.ResultImpl.{Access, ok, ◌>>=◌}
use mysql_connect_pool.Db.Result.{Row, Field, make_field, in_long}
use mysql_connect_pool.Db.Result.Fields.{row_size}

unfoldable pub begin_fields : Row → Field
unfolding make_field
begin_fields r = make_field r 0

unfoldable pub end_fields : Row → Field
unfolding make_field row_size
end_fields r = make_field r (row_size r)

-- `operator+=` and `operator-=`
unfoldable pub move_field : Field → ℤ → Access Field
move_field it i = in_long (it.column +ℤ i) >>= λ column. ok (record it { column = column })

unfoldable pub move_field_back : Field → ℤ → Access Field
move_field_back it i = in_long (it.column -ℤ i) >>= λ column. ok (record it { column = column })

-- `++it` and `--it`
unfoldable pub next_field : Field → Access Field
unfolding move_field
next_field it = move_field it (pos 1)

unfoldable pub previous_field : Field → Access Field
unfolding move_field_back
previous_field it = move_field_back it (pos 1)

-- `it++` and `it--`: the copy made before the step, and the iterator after it.
unfoldable pub post_next_field : Field → Access (Field × Field)
unfolding next_field
post_next_field it = next_field it >>= λ after. ok (it, after)

unfoldable pub post_previous_field : Field → Access (Field × Field)
unfolding previous_field
post_previous_field it = previous_field it >>= λ after. ok (it, after)

-- `==` and `<`
unfoldable pub same_field : Field → Field → Bool
same_field it other = eq_ℤ it.column other.column

unfoldable pub field_before : Field → Field → Bool
field_before it other = lt_ℤ it.column other.column

-- The explicit constructor, and `base`.
unfoldable pub make_reverse_fields : Field → Access Field
unfolding previous_field
make_reverse_fields it = previous_field it

unfoldable pub base_field : Field → Access Field
unfolding next_field
base_field it = next_field it

unfoldable pub rbegin_fields : Row → Access Field
unfolding make_reverse_fields end_fields
rbegin_fields r = make_reverse_fields (end_fields r)

unfoldable pub rend_fields : Row → Access Field
unfolding make_reverse_fields begin_fields
rend_fields r = make_reverse_fields (begin_fields r)

-- `++` and `--` of a reverse iterator.
unfoldable pub reverse_next_field : Field → Access Field
unfolding previous_field
reverse_next_field it = previous_field it

unfoldable pub reverse_previous_field : Field → Access Field
unfolding next_field
reverse_previous_field it = next_field it

-- `+=`, `-=` and `<` of a reverse iterator.
unfoldable pub reverse_move_field : Field → ℤ → Access Field
unfolding move_field_back
reverse_move_field it i = move_field_back it i

unfoldable pub reverse_move_field_back : Field → ℤ → Access Field
unfolding move_field
reverse_move_field_back it i = move_field it i

unfoldable pub reverse_field_before : Field → Field → Bool
unfolding field_before
reverse_field_before it other = field_before other it
