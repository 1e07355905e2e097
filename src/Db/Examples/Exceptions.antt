-- ===== src/Db/Examples/Exceptions.antt =====
-- The theorems on the errors, at a syntax error about a table that is not there.
use mysql_connect_pool.Prelude.{ℕ, suc, ◌≤◌, ◌≡◌, ◌≢◌, refl, true, false, none, some, [], ◌∷◌}
use mysql_connect_pool.Prelude.Int.{negsuc, pos}
use mysql_connect_pool.Db.Exception.{
  Class, exception, drogon_db_exception, sql_error, undefined_table, Exception, Arguments,
  no_arguments, with_state,
}
use mysql_connect_pool.Db.Exception.Make.{make}
use mysql_connect_pool.Db.Exception.Hierarchy.{
  handler_catches, copies, deepest, own, static_exception, base_functions,
}
use mysql_connect_pool.Db.Exception.Caught.{IsMade, is_there}
use mysql_connect_pool.Db.Exception.Bases.{make-IsException}

abbrev missing_table : Arguments
missing_table = with_state (b'n' ∷ b'o' ∷ []) (b'q' ∷ []) none

abbrev table_error : Exception
table_error = record {
  class = undefined_table;
  what = b'n' ∷ b'o' ∷ [];
  sql_part =
      some
        (record { query = b'q' ∷ []; sql_state = []; errcode = pos 0; extended_errcode = pos 0 });
  error_position = some (negsuc 0);
}

make-IsException_example :
    IsMade undefined_table missing_table table_error
    × (is_there table_error.sql_part ≡ handler_catches sql_error undefined_table)
    × ((b : Class) → copies deepest b undefined_table ≤ 1)
    × ((d : ℕ) (b : Class)
        → copies (suc (suc (suc (suc (suc d))))) b undefined_table
          ≡ copies deepest b undefined_table)
    × (handler_catches drogon_db_exception undefined_table ≡ true)
    × (handler_catches exception undefined_table ≡ true)
    × (o : Class) × (base_functions (suc deepest) undefined_table ≡ own o ∷ [])
    × (handler_catches o undefined_table ≡ true)
unfolding make
make-IsException_example = make-IsException undefined_table missing_table table_error refl (λ e. cc)

-- An object of the mixin class can be made, and its `base` is no part of it.
mixin_object :
    (make drogon_db_exception no_arguments ≢ none)
    × (base_functions (suc deepest) drogon_db_exception ≡ static_exception ∷ [])
    × (handler_catches exception drogon_db_exception ≡ false)
unfolding make base_functions handler_catches
mixin_object = (λ e. cc, refl, refl)
