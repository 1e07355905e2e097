-- ===== src/Db/Exception/Caught.antt =====
-- What the constructors of the errors make, and which handlers catch it (db/Exception.h).
use mysql_connect_pool.Prelude.{
  ℕ, ◌≡◌, Bool, true, false, Option, none, some, List, [], ◌++◌, arith,
}
use mysql_connect_pool.Prelude.Int.{ℤ, pos, negsuc}
use mysql_connect_pool.Db.Exception.{
  Class, exception, runtime_error, logic_error, invalid_argument, domain_error, out_of_range,
  drogon_db_exception, failure, broken_connection, sql_error, in_doubt_error, transaction_rollback,
  serialization_failure, statement_completion_unknown, deadlock_detected, internal_error,
  timeout_error, usage_error, argument_error, conversion_error, range_error, unexpected_rows,
  feature_not_supported, data_exception, integrity_constraint_violation, restrict_violation,
  not_null_violation, foreign_key_violation, unique_violation, check_violation,
  invalid_cursor_state, invalid_sql_statement_name, invalid_cursor_name, syntax_error,
  undefined_column, undefined_function, undefined_table, insufficient_privilege,
  insufficient_resources, disk_full, out_of_memory, too_many_connections, Exception, SqlPart,
  Arguments, no_arguments, message, with_state, with_codes, with_position, with_codes_position,
  internal_prefix, connection_failed, state_text,
}
use mysql_connect_pool.Db.Exception.Make.{make}
use mysql_connect_pool.Db.Exception.Hierarchy.{handler_catches}

-- The texts and numbers that a constructor is given.
abbrev pub message_of : Class → Arguments → List ℕ
message_of internal_error (message m) = internal_prefix ++ m
message_of drogon_db_exception _ = []
message_of _ no_arguments = connection_failed
message_of _ (message m) = m
message_of _ (with_state m q s) = m
message_of _ (with_codes m q e x) = m
message_of _ (with_position m q s p) = m
message_of _ (with_codes_position m q e x p) = m

abbrev pub state_part : List ℕ → Option (List ℕ) → Option SqlPart
state_part q s =
    some (record { query = q; sql_state = state_text s; errcode = pos 0; extended_errcode = pos 0 })

abbrev pub codes_part : List ℕ → ℤ → ℤ → Option SqlPart
codes_part q e x = some (record { query = q; sql_state = []; errcode = e; extended_errcode = x })

abbrev pub sql_of : Arguments → Option SqlPart
sql_of no_arguments = none
sql_of (message m) = none
sql_of (with_state m q s) = state_part q s
sql_of (with_codes m q e x) = codes_part q e x
sql_of (with_position m q s p) = state_part q s
sql_of (with_codes_position m q e x p) = codes_part q e x

abbrev pub position_of : Bool → Arguments → Option ℤ
position_of false a = none
position_of true (with_position m q s p) = some p
position_of true (with_codes_position m q e x p) = some p
position_of true a = some (negsuc 0)

abbrev pub IsMade : Class → Arguments → Exception → Type 0
IsMade c a t =
    (t.class ≡ c)
    × (t.what ≡ message_of c a)
    × (t.sql_part ≡ sql_of a)
    × (t.error_position ≡ position_of (handler_catches syntax_error c) a)

abbrev pub is_there : Option SqlPart → Bool
is_there none = false
is_there (some p) = true

-- What a constructor makes; a handler for `SqlError` catches it just if it has a query.
pub make-IsMade :
    (c : Class) (a : Arguments) (t : Exception)
    → make c a ≡ some t
    → IsMade c a t × (is_there t.sql_part ≡ handler_catches sql_error c)
unfolding make handler_catches
make-IsMade exception a t e = ground arith
make-IsMade runtime_error a t e = ground arith
make-IsMade logic_error a t e = ground arith
make-IsMade invalid_argument a t e = ground arith
make-IsMade domain_error a t e = ground arith
make-IsMade out_of_range a t e = ground arith
make-IsMade drogon_db_exception a t e = ground arith
make-IsMade failure a t e = ground arith
make-IsMade broken_connection a t e = ground arith
make-IsMade sql_error a t e = ground arith
make-IsMade in_doubt_error a t e = ground arith
make-IsMade transaction_rollback a t e = ground arith
make-IsMade serialization_failure a t e = ground arith
make-IsMade statement_completion_unknown a t e = ground arith
make-IsMade deadlock_detected a t e = ground arith
make-IsMade internal_error a t e = ground arith
make-IsMade timeout_error a t e = ground arith
make-IsMade usage_error a t e = ground arith
make-IsMade argument_error a t e = ground arith
make-IsMade conversion_error a t e = ground arith
make-IsMade range_error a t e = ground arith
make-IsMade unexpected_rows a t e = ground arith
make-IsMade feature_not_supported a t e = ground arith
make-IsMade data_exception a t e = ground arith
make-IsMade integrity_constraint_violation a t e = ground arith
make-IsMade restrict_violation a t e = ground arith
make-IsMade not_null_violation a t e = ground arith
make-IsMade foreign_key_violation a t e = ground arith
make-IsMade unique_violation a t e = ground arith
make-IsMade check_violation a t e = ground arith
make-IsMade invalid_cursor_state a t e = ground arith
make-IsMade invalid_sql_statement_name a t e = ground arith
make-IsMade invalid_cursor_name a t e = ground arith
make-IsMade syntax_error a t e = ground arith
make-IsMade undefined_column a t e = ground arith
make-IsMade undefined_function a t e = ground arith
make-IsMade undefined_table a t e = ground arith
make-IsMade insufficient_privilege a t e = ground arith
make-IsMade insufficient_resources a t e = ground arith
make-IsMade disk_full a t e = ground arith
make-IsMade out_of_memory a t e = ground arith
make-IsMade too_many_connections a t e = ground arith
