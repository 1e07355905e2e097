-- ===== src/Db/Result/ResultIterator.antt =====
-- db/ResultIterator.h, and the iterators of db/Result.cpp: a `ConstResultIterator` and a
-- `ConstReverseResultIterator` are the row they stand at.
use mysql_connect_pool.Prelude.{Bool}
use mysql_connect_pool.Prelude.Int.{ℤ, pos, ◌+ℤ◌, ◌-ℤ◌, eq_ℤ, lt_ℤ}
use mysql_connect_pool.Db.ResultImpl.{Access, ok, ◌>>=◌, ResultImpl}
use mysql_connect_pool.Db.Result.{Row, size, make_row, in_long}

unfoldable pub begin_rows : ResultImpl → Row
unfolding make_row
begin_rows r = make_row r 0

unfoldable pub end_rows : ResultImpl → Row
unfolding make_row size
end_rows r = make_row r (size r)

-- `operator+=` and `operator-=`
unfoldable pub move_row : Row → ℤ → Access Row
move_row it i = in_long (it.index +ℤ i) >>= λ index. ok (record it { index = index })

unfoldable pub move_row_back : Row → ℤ → Access Row
move_row_back it i = in_long (it.index -ℤ i) >>= λ index. ok (record it { index = index })

-- `++it` and `--it`
unfoldable pub next_row : Row → Access Row
unfolding move_row
next_row it = move_row it (pos 1)

unfoldable pub previous_row : Row → Access Row
unfolding move_row_back
previous_row it = move_row_back it (pos 1)

-- `it++` and `it--`: the copy made before the step, and the iterator after it.
unfoldable pub post_next_row : Row → Access (Row × Row)
unfolding next_row
post_next_row it = next_row it >>= λ after. ok (it, after)

unfoldable pub post_previous_row : Row → Access (Row × Row)
unfolding previous_row
post_previous_row it = previous_row it >>= λ after. ok (it, after)

-- `==` and `<`
unfoldable pub same_row : Row → Row → Bool
same_row it other = eq_ℤ it.index other.index

unfoldable pub row_before : Row → Row → Bool
row_before it other = lt_ℤ it.index other.index

-- The explicit constructor, and `base`.
unfoldable pub make_reverse_rows : Row → Access Row
unfolding previous_row
make_reverse_rows it = previous_row it

unfoldable pub base_row : Row → Access Row
unfolding next_row
base_row it = next_row it

unfoldable pub rbegin_rows : ResultImpl → Access Row
unfolding make_reverse_rows end_rows
rbegin_rows r = make_reverse_rows (end_rows r)

unfoldable pub rend_rows : ResultImpl → Access Row
unfolding make_reverse_rows begin_rows
rend_rows r = make_reverse_rows (begin_rows r)

-- `++` and `--` of a reverse iterator.
unfoldable pub reverse_next_row : Row → Access Row
unfolding previous_row
reverse_next_row it = previous_row it

unfoldable pub reverse_previous_row : Row → Access Row
unfolding next_row
reverse_previous_row it = next_row it

-- `+=`, `-=` and `<` of a reverse iterator.
unfoldable pub reverse_move_row : Row → ℤ → Access Row
unfolding move_row_back
reverse_move_row it i = move_row_back it i

unfoldable pub reverse_move_row_back : Row → ℤ → Access Row
unfolding move_row
reverse_move_row_back it i = move_row it i

unfoldable pub reverse_row_before : Row → Row → Bool
unfolding row_before
reverse_row_before it other = row_before other it
