-- ===== src/Db/Exception/Bases.antt =====
-- Each class has one `std::exception` and one `DrogonDbException` in it (db/Exception.h).
use mysql_connect_pool.Prelude.{ℕ, zero, suc, ◌≤◌, ◌≡◌, ◌≢◌, refl, true, some, [], ◌∷◌, arith}
use mysql_connect_pool.Db.Exception.{
  Class, exception, runtime_error, logic_error, invalid_argument, domain_error, out_of_range,
  drogon_db_exception, failure, broken_connection, sql_error, in_doubt_error, transaction_rollback,
  serialization_failure, statement_completion_unknown, deadlock_detected, internal_error,
  timeout_error, usage_error, argument_error, conversion_error, range_error, unexpected_rows,
  feature_not_supported, data_exception, integrity_constraint_violation, restrict_violation,
  not_null_violation, foreign_key_violation, unique_violation, check_violation,
  invalid_cursor_state, invalid_sql_statement_name, invalid_cursor_name, syntax_error,
  undefined_column, undefined_function, undefined_table, insufficient_privilege,
  insufficient_resources, disk_full, out_of_memory, too_many_connections, Exception, Arguments,
}
use mysql_connect_pool.Db.Exception.Make.{make}
use mysql_connect_pool.Db.Exception.Caught.{IsMade, is_there, make-IsMade}
use mysql_connect_pool.Db.Exception.Hierarchy.{
  handler_catches, copies, deepest, bases, own, base_functions,
}

-- A class without bases.
root : (d : ℕ) (b c : Class) → bases c ≡ [] → copies d b c ≡ copies 0 b c
unfolding copies
root zero b c e = refl
root (suc d) b c e = rw e (omega arith)

-- A search below the deepest class finds no further base-class object.
copies-deeper :
    (d : ℕ) (b c : Class) → copies (suc (suc (suc (suc (suc d))))) b c ≡ copies deepest b c
unfolding copies
copies-deeper d b exception =
    ground (arith, root d b exception refl, root d b drogon_db_exception refl)
copies-deeper d b runtime_error =
    ground (arith, root d b exception refl, root d b drogon_db_exception refl)
copies-deeper d b logic_error =
    ground (arith, root d b exception refl, root d b drogon_db_exception refl)
copies-deeper d b invalid_argument =
    ground (arith, root d b exception refl, root d b drogon_db_exception refl)
copies-deeper d b domain_error =
    ground (arith, root d b exception refl, root d b drogon_db_exception refl)
copies-deeper d b out_of_range =
    ground (arith, root d b exception refl, root d b drogon_db_exception refl)
copies-deeper d b drogon_db_exception =
    ground (arith, root d b exception refl, root d b drogon_db_exception refl)
copies-deeper d b failure =
    ground (arith, root d b exception refl, root d b drogon_db_exception refl)
copies-deeper d b broken_connection =
    ground (arith, root d b exception refl, root d b drogon_db_exception refl)
copies-deeper d b sql_error =
    ground (arith, root d b exception refl, root d b drogon_db_exception refl)
copies-deeper d b in_doubt_error =
    ground (arith, root d b exception refl, root d b drogon_db_exception refl)
copies-deeper d b transaction_rollback =
    ground (arith, root d b exception refl, root d b drogon_db_exception refl)
copies-deeper d b serialization_failure =
    ground (arith, root d b exception refl, root d b drogon_db_exception refl)
copies-deeper d b statement_completion_unknown =
    ground (arith, root d b exception refl, root d b drogon_db_exception refl)
copies-deeper d b deadlock_detected =
    ground (arith, root d b exception refl, root d b drogon_db_exception refl)
copies-deeper d b internal_error =
    ground (arith, root d b exception refl, root d b drogon_db_exception refl)
copies-deeper d b timeout_error =
    ground (arith, root d b exception refl, root d b drogon_db_exception refl)
copies-deeper d b usage_error =
    ground (arith, root d b exception refl, root d b drogon_db_exception refl)
copies-deeper d b argument_error =
    ground (arith, root d b exception refl, root d b drogon_db_exception refl)
copies-deeper d b conversion_error =
    ground (arith, root d b exception refl, root d b drogon_db_exception refl)
copies-deeper d b range_error =
    ground (arith, root d b exception refl, root d b drogon_db_exception refl)
copies-deeper d b unexpected_rows =
    ground (arith, root d b exception refl, root d b drogon_db_exception refl)
copies-deeper d b feature_not_supported =
    ground (arith, root d b exception refl, root d b drogon_db_exception refl)
copies-deeper d b data_exception =
    ground (arith, root d b exception refl, root d b drogon_db_exception refl)
copies-deeper d b integrity_constraint_violation =
    ground (arith, root d b exception refl, root d b drogon_db_exception refl)
copies-deeper d b restrict_violation =
    ground (arith, root d b exception refl, root d b drogon_db_exception refl)
copies-deeper d b not_null_violation =
    ground (arith, root d b exception refl, root d b drogon_db_exception refl)
copies-deeper d b foreign_key_violation =
    ground (arith, root d b exception refl, root d b drogon_db_exception refl)
copies-deeper d b unique_violation =
    ground (arith, root d b exception refl, root d b drogon_db_exception refl)
copies-deeper d b check_violation =
    ground (arith, root d b exception refl, root d b drogon_db_exception refl)
copies-deeper d b invalid_cursor_state =
    ground (arith, root d b exception refl, root d b drogon_db_exception refl)
copies-deeper d b invalid_sql_statement_name =
    ground (arith, root d b exception refl, root d b drogon_db_exception refl)
copies-deeper d b invalid_cursor_name =
    ground (arith, root d b exception refl, root d b drogon_db_exception refl)
copies-deeper d b syntax_error =
    ground (arith, root d b exception refl, root d b drogon_db_exception refl)
copies-deeper d b undefined_column =
    ground (arith, root d b exception refl, root d b drogon_db_exception refl)
copies-deeper d b undefined_function =
    ground (arith, root d b exception refl, root d b drogon_db_exception refl)
copies-deeper d b undefined_table =
    ground (arith, root d b exception refl, root d b drogon_db_exception refl)
copies-deeper d b insufficient_privilege =
    ground (arith, root d b exception refl, root d b drogon_db_exception refl)
copies-deeper d b insufficient_resources =
    ground (arith, root d b exception refl, root d b drogon_db_exception refl)
copies-deeper d b disk_full =
    ground (arith, root d b exception refl, root d b drogon_db_exception refl)
copies-deeper d b out_of_memory =
    ground (arith, root d b exception refl, root d b drogon_db_exception refl)
copies-deeper d b too_many_connections =
    ground (arith, root d b exception refl, root d b drogon_db_exception refl)

copies-le-one : (b c : Class) → copies deepest b c ≤ 1
unfolding copies
copies-le-one b exception = ground arith
copies-le-one b runtime_error = ground arith
copies-le-one b logic_error = ground arith
copies-le-one b invalid_argument = ground arith
copies-le-one b domain_error = ground arith
copies-le-one b out_of_range = ground arith
copies-le-one b drogon_db_exception = ground arith
copies-le-one b failure = ground arith
copies-le-one b broken_connection = ground arith
copies-le-one b sql_error = ground arith
copies-le-one b in_doubt_error = ground arith
copies-le-one b transaction_rollback = ground arith
copies-le-one b serialization_failure = ground arith
copies-le-one b statement_completion_unknown = ground arith
copies-le-one b deadlock_detected = ground arith
copies-le-one b internal_error = ground arith
copies-le-one b timeout_error = ground arith
copies-le-one b usage_error = ground arith
copies-le-one b argument_error = ground arith
copies-le-one b conversion_error = ground arith
copies-le-one b range_error = ground arith
copies-le-one b unexpected_rows = ground arith
copies-le-one b feature_not_supported = ground arith
copies-le-one b data_exception = ground arith
copies-le-one b integrity_constraint_violation = ground arith
copies-le-one b restrict_violation = ground arith
copies-le-one b not_null_violation = ground arith
copies-le-one b foreign_key_violation = ground arith
copies-le-one b unique_violation = ground arith
copies-le-one b check_violation = ground arith
copies-le-one b invalid_cursor_state = ground arith
copies-le-one b invalid_sql_statement_name = ground arith
copies-le-one b invalid_cursor_name = ground arith
copies-le-one b syntax_error = ground arith
copies-le-one b undefined_column = ground arith
copies-le-one b undefined_function = ground arith
copies-le-one b undefined_table = ground arith
copies-le-one b insufficient_privilege = ground arith
copies-le-one b insufficient_resources = ground arith
copies-le-one b disk_full = ground arith
copies-le-one b out_of_memory = ground arith
copies-le-one b too_many_connections = ground arith

-- The two handlers, and the function that `base` runs.
abbrev IsDrogon : Class → Type 0
IsDrogon c =
    (handler_catches drogon_db_exception c ≡ true)
    × (handler_catches exception c ≡ true)
    × (o : Class) × (base_functions (suc deepest) c ≡ own o ∷ [])
    × (handler_catches o c ≡ true)

made-IsDrogon :
    (c : Class) (a : Arguments) (t : Exception)
    → make c a ≡ some t
    → c ≢ drogon_db_exception
    → IsDrogon c
unfolding make handler_catches base_functions
made-IsDrogon exception a t e h = cc
made-IsDrogon runtime_error a t e h = cc
made-IsDrogon logic_error a t e h = cc
made-IsDrogon invalid_argument a t e h = cc
made-IsDrogon domain_error a t e h = cc
made-IsDrogon out_of_range a t e h = cc
made-IsDrogon drogon_db_exception a t e h = absurd (h refl)
made-IsDrogon failure a t e h = (refl, refl, failure, refl, refl)
made-IsDrogon broken_connection a t e h = (refl, refl, failure, refl, refl)
made-IsDrogon sql_error a t e h = (refl, refl, failure, refl, refl)
made-IsDrogon in_doubt_error a t e h = (refl, refl, failure, refl, refl)
made-IsDrogon transaction_rollback a t e h = (refl, refl, failure, refl, refl)
made-IsDrogon serialization_failure a t e h = (refl, refl, failure, refl, refl)
made-IsDrogon statement_completion_unknown a t e h = (refl, refl, failure, refl, refl)
made-IsDrogon deadlock_detected a t e h = (refl, refl, failure, refl, refl)
made-IsDrogon internal_error a t e h = (refl, refl, internal_error, refl, refl)
made-IsDrogon timeout_error a t e h = (refl, refl, timeout_error, refl, refl)
made-IsDrogon usage_error a t e h = (refl, refl, usage_error, refl, refl)
made-IsDrogon argument_error a t e h = (refl, refl, argument_error, refl, refl)
made-IsDrogon conversion_error a t e h = (refl, refl, conversion_error, refl, refl)
made-IsDrogon range_error a t e h = (refl, refl, range_error, refl, refl)
made-IsDrogon unexpected_rows a t e h = (refl, refl, unexpected_rows, refl, refl)
made-IsDrogon feature_not_supported a t e h = (refl, refl, failure, refl, refl)
made-IsDrogon data_exception a t e h = (refl, refl, failure, refl, refl)
made-IsDrogon integrity_constraint_violation a t e h = (refl, refl, failure, refl, refl)
made-IsDrogon restrict_violation a t e h = (refl, refl, failure, refl, refl)
made-IsDrogon not_null_violation a t e h = (refl, refl, failure, refl, refl)
made-IsDrogon foreign_key_violation a t e h = (refl, refl, failure, refl, refl)
made-IsDrogon unique_violation a t e h = (refl, refl, failure, refl, refl)
made-IsDrogon check_violation a t e h = (refl, refl, failure, refl, refl)
made-IsDrogon invalid_cursor_state a t e h = (refl, refl, failure, refl, refl)
made-IsDrogon invalid_sql_statement_name a t e h = (refl, refl, failure, refl, refl)
made-IsDrogon invalid_cursor_name a t e h = (refl, refl, failure, refl, refl)
made-IsDrogon syntax_error a t e h = (refl, refl, failure, refl, refl)
made-IsDrogon undefined_column a t e h = (refl, refl, failure, refl, refl)
made-IsDrogon undefined_function a t e h = (refl, refl, failure, refl, refl)
made-IsDrogon undefined_table a t e h = (refl, refl, failure, refl, refl)
made-IsDrogon insufficient_privilege a t e h = (refl, refl, failure, refl, refl)
made-IsDrogon insufficient_resources a t e h = (refl, refl, failure, refl, refl)
made-IsDrogon disk_full a t e h = (refl, refl, failure, refl, refl)
made-IsDrogon out_of_memory a t e h = (refl, refl, failure, refl, refl)
made-IsDrogon too_many_connections a t e h = (refl, refl, failure, refl, refl)

-- A constructor of a class of the header, other than the mixin class `DrogonDbException`, makes an object of its
-- class, with the message that it was given, behind the prefix of `InternalError`, or the text of a
-- default `BrokenConnection`, and with the query, the SQLSTATE, the codes and the position that it
-- was given, or their defaults. Handlers for `DrogonDbException` and for `std::exception` both catch
-- the object, since it has just one base-class object of each class that it derives from, and a
-- handler for `SqlError` does just if it has a query; `base`, called on it, runs one function, of a
-- class that it derives from, which returns the object itself.
pub make-IsException :
    (c : Class) (a : Arguments) (t : Exception)
    → make c a ≡ some t
    → c ≢ drogon_db_exception
    → IsMade c a t
      × (is_there t.sql_part ≡ handler_catches sql_error c)
      × ((b : Class) → copies deepest b c ≤ 1)
      × ((d : ℕ) (b : Class) → copies (suc (suc (suc (suc (suc d))))) b c ≡ copies deepest b c)
      × (handler_catches drogon_db_exception c ≡ true)
      × (handler_catches exception c ≡ true)
      × (o : Class) × (base_functions (suc deepest) c ≡ own o ∷ [])
      × (handler_catches o c ≡ true)
make-IsException c a t e h =
    let (fields, found) = make-IsMade c a t e in
    let (x, y, o, p, q) = made-IsDrogon c a t e h in
    (fields, found, λ b. copies-le-one b c, λ d b. copies-deeper d b c, x, y, o, p, q)
