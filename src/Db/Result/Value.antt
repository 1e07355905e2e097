-- ===== src/Db/Result/Value.antt =====
-- db/Field.cpp and db/Field.h: the value of a field, as text and as a truth value.
use mysql_connect_pool.Prelude.{
  ℕ, Bool, false, ◌||◌, Option, none, some, List, [], ◌∷◌, leb, ◌==◌, if◌then◌else◌, length, take,
}
use mysql_connect_pool.Prelude.Int.{ℤ, pos}
use mysql_connect_pool.Utils.Hex.{hex_to_binary_string}
use mysql_connect_pool.Db.ResultImpl.{
  Access, ok, assertion, undefined, ◌>>=◌, Cell, ResultImpl, column_name, get_value, is_null,
  get_length,
}
use mysql_connect_pool.Db.Result.{Field, to_size}

unfoldable pub name : Field → Access (List ℕ)
unfolding to_size column_name
name f = column_name (to_size f.column) f.result

unfoldable pub is_null_field : Field → Access Bool
unfolding to_size is_null
is_null_field f = is_null f.row (to_size f.column) f.result

unfoldable pub c_str : Field → Access Cell
unfolding to_size get_value
c_str f = get_value f.row (to_size f.column) f.result

unfoldable pub field_length : Field → Access ℕ
unfolding to_size get_length
field_length f = get_length f.row (to_size f.column) f.result

-- The characters of a `std::string` or a `std::string_view` made of a pointer and a length.
unfoldable pub text_of : Cell → ℕ → Access (List ℕ)
text_of none n = if n == 0 then ok [] else undefined
text_of (some v) n = if leb n (length v) then ok (take n v) else undefined

-- `as<std::string_view>`
unfoldable pub as_string_view : Field → Access (List ℕ)
unfolding c_str field_length text_of
as_string_view f = c_str f >>= λ first. field_length f >>= λ n. text_of first n

-- `oid`, which a MySQL result does not override
unfoldable pub oid : ResultImpl → ℕ → ℕ
oid r column = 0

abbrev or_assertion : Option (List ℕ) → Access (List ℕ)
or_assertion none = assertion
or_assertion (some v) = ok v

-- A text that starts with `\x`, decoded.
unfoldable pub decoded : List ℕ → Access (List ℕ)
decoded (c ∷ d ∷ v) =
    if c == b'\\'
    then (if d == b'x' then or_assertion (hex_to_binary_string v) else ok [])
    else ok []
decoded v = ok []

-- `as<std::string>`; `as<std::vector<char>>` is the same with a vector.
unfoldable pub as_string : Field → Access (List ℕ)
unfolding c_str field_length text_of as_string_view oid decoded
as_string f =
    if oid f.result (to_size f.column) == 17
    then as_string_view f >>= decoded
    else c_str f >>= λ value. field_length f >>= λ n. text_of value n

-- `*value == 't' || *value == '1'`: an empty text ends at once, with a null byte.
unfoldable pub is_true : Cell → Access Bool
is_true none = undefined
is_true (some []) = ok false
is_true (some (c ∷ v)) = ok (c == b't' || c == b'1')

unfoldable pub as_bool : Field → Access Bool
unfolding field_length c_str is_true
as_bool f = field_length f >>= λ n. if n == 1 then c_str f >>= is_true else ok false

abbrev converted : (List ℕ → Access ℤ) → Cell → Access ℤ
converted stoi none = undefined
converted stoi (some v) = stoi v

-- `as<int>` and the other numbers: 0 for a null, else what the C library's conversion gives, an
-- argument, which throws on some texts.
unfoldable pub as_int : (List ℕ → Access ℤ) → Field → Access ℤ
unfolding is_null_field c_str
as_int stoi f = is_null_field f >>= λ b. if b then ok (pos 0) else (c_str f >>= converted stoi)
