-- ===== src/Db/Result/Numbers.antt =====
-- db/Field.h: the other conversions of a field, and of db/Result.cpp assignment and swap. What the C
-- library makes of a text is an argument: it may throw.
use mysql_connect_pool.Prelude.{
  ℕ, ◌-◌, ◌%◌, ◌^◌, ◌≡◌, refl, Option, none, some, List, ltb, if◌then◌else◌,
}
use mysql_connect_pool.Prelude.Int.{ℤ, pos, negsuc}
use mysql_connect_pool.Db.ResultImpl.{Access, ok, undefined, ◌>>=◌, Cell, ResultImpl, is_null}
use mysql_connect_pool.Db.Result.{Field}
use mysql_connect_pool.Db.Result.Value.{is_null_field, c_str}
use mysql_connect_pool.Db.Result.Places.{field_place}

-- An integer, stored in w bits.
unfoldable pub to_unsigned_bits : ℕ → ℤ → ℕ
to_unsigned_bits w (pos n) = n % 2 ^ w
to_unsigned_bits w (negsuc n) = 2 ^ w - 1 - n % 2 ^ w

unfoldable pub to_int8 : ℤ → ℤ
unfolding to_unsigned_bits
to_int8 z = let n = to_unsigned_bits 8 z in if ltb n 128 then pos n else negsuc (255 - n)

module _ {A : Type 0} where
  unfoldable pub convert : (List ℕ → Access A) → Cell → Access A
  convert read none = undefined
  convert read (some v) = read v

  -- `if (isNull()) return initial;`, then the conversion.
  unfoldable pub as_with : A → (List ℕ → Access A) → Field → Access A
  unfolding is_null_field c_str convert
  as_with initial read f =
      is_null_field f >>= λ b. if b then ok initial else (c_str f >>= convert read)

  -- `as<T>` for any other type, with what the stream stores, if it stores anything.
  unfoldable pub as_streamed : A → (List ℕ → Option A) → Field → Access A
  unfolding as_with
  as_streamed initial read f =
      as_with initial (λ v. elim (read v) [ none ↦ ok initial | some a ↦ ok a ]) f

  -- `as<float>` and `as<double>`, by `stof` and `stod`.
  unfoldable pub as_floating : A → (List ℕ → Access A) → Field → Access A
  unfolding as_with
  as_floating null_value stod f = as_with null_value stod f

unfoldable pub as_long : (List ℕ → Access ℤ) → Field → Access ℤ
unfolding as_with
as_long stol f = as_with (pos 0) stol f

unfoldable pub as_int8 : (List ℕ → ℤ) → Field → Access ℤ
unfolding as_with to_int8
as_int8 atoi f = as_with (pos 0) (λ v. ok (to_int8 (atoi v))) f

unfoldable pub as_long_long : (List ℕ → ℤ) → Field → Access ℤ
unfolding as_with
as_long_long atoll f = as_with (pos 0) (λ v. ok (atoll v)) f

-- `stoul` returns 64 bits.
unfoldable pub as_unsigned_int : (List ℕ → Access ℕ) → Field → Access ℕ
unfolding as_with
as_unsigned_int stoul f = as_with 0 (λ v. stoul v >>= λ n. ok (n % 2 ^ 32)) f

unfoldable pub as_unsigned_long : (List ℕ → Access ℕ) → Field → Access ℕ
unfolding as_with
as_unsigned_long stoul f = as_with 0 stoul f

unfoldable pub as_uint8 : (List ℕ → ℤ) → Field → Access ℕ
unfolding as_with to_unsigned_bits
as_uint8 atoi f = as_with 0 (λ v. ok (to_unsigned_bits 8 (atoi v))) f

-- Assignment, and `swap`, of two shared pointers.
unfoldable pub assign_result : ResultImpl → ResultImpl → ResultImpl
assign_result result r = r

unfoldable pub swap_results : ResultImpl × ResultImpl → ResultImpl × ResultImpl
swap_results (one, two) = (two, one)

-- What the conversions read where the field holds a value, or a null.
abbrev pub number_in : {A : Type 0} → A → (List ℕ → Access A) → Cell → Access A
number_in initial read none = ok initial
number_in initial read (some v) = read v

pub as_with-field_place :
    {A : Type 0} (initial : A) (read : List ℕ → Access A) (r : ResultImpl) (i j : ℕ) (c : Cell)
    → c_str (field_place r i j) ≡ ok c
    → as_with initial read (field_place r i j) ≡ number_in initial read c
unfolding as_with is_null_field is_null c_str convert
as_with-field_place initial read r i j none e = rw e refl
as_with-field_place initial read r i j (some v) e = rw e refl
