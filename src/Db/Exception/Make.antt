-- ===== src/Db/Exception/Make.antt =====
-- db/Exception.h and db/Exception.cpp: the constructors of the classes under `Failure`, `SqlError`
-- and `SyntaxError`, and of the classes that derive from the logic errors of the standard library.
use mysql_connect_pool.Prelude.{Option, none, [], ◌++◌}
use mysql_connect_pool.Db.Exception.{
  Class, exception, runtime_error, logic_error, invalid_argument, domain_error, out_of_range,
  drogon_db_exception, failure, broken_connection, sql_error, in_doubt_error, transaction_rollback,
  serialization_failure, statement_completion_unknown, deadlock_detected, internal_error,
  timeout_error, usage_error, argument_error, conversion_error, range_error, unexpected_rows,
  feature_not_supported, data_exception, integrity_constraint_violation, restrict_violation,
  not_null_violation, foreign_key_violation, unique_violation, check_violation,
  invalid_cursor_state, invalid_sql_statement_name, invalid_cursor_name, syntax_error,
  undefined_column, undefined_function, undefined_table, insufficient_privilege,
  insufficient_resources, disk_full, out_of_memory, too_many_connections, Exception, Arguments,
  no_arguments, message, with_state, with_codes, derived, with_message, internal_prefix,
  make_failure, make_broken_connection, make_sql_error, make_syntax_error,
}

unfoldable pub make_in_doubt_error : Arguments → Option Exception
unfolding make_failure
make_in_doubt_error a = derived in_doubt_error (make_failure a)

unfoldable pub make_transaction_rollback : Arguments → Option Exception
unfolding make_failure
make_transaction_rollback a = derived transaction_rollback (make_failure a)

unfoldable pub make_serialization_failure : Arguments → Option Exception
unfolding make_transaction_rollback
make_serialization_failure a = derived serialization_failure (make_transaction_rollback a)

unfoldable pub make_statement_completion_unknown : Arguments → Option Exception
unfolding make_transaction_rollback
make_statement_completion_unknown a =
    derived statement_completion_unknown (make_transaction_rollback a)

unfoldable pub make_deadlock_detected : Arguments → Option Exception
unfolding make_transaction_rollback
make_deadlock_detected a = derived deadlock_detected (make_transaction_rollback a)

unfoldable pub make_too_many_connections : Arguments → Option Exception
unfolding make_broken_connection
make_too_many_connections (message whatarg) =
    derived too_many_connections (make_broken_connection (message whatarg))
make_too_many_connections _ = none

unfoldable pub make_internal_error : Arguments → Option Exception
make_internal_error (message whatarg) = with_message internal_error (internal_prefix ++ whatarg)
make_internal_error _ = none

-- The classes whose constructor hands its message to a logic error of the standard library.
unfoldable pub make_logic_error : Class → Arguments → Option Exception
make_logic_error c (message whatarg) = with_message c whatarg
make_logic_error c _ = none

unfoldable pub make_unexpected_rows : Arguments → Option Exception
unfolding make_logic_error
make_unexpected_rows a = derived unexpected_rows (make_logic_error range_error a)

-- The default constructor of the mixin class, which has no member that is left undefined.
unfoldable pub make_drogon_db_exception : Arguments → Option Exception
make_drogon_db_exception no_arguments = with_message drogon_db_exception []
make_drogon_db_exception _ = none

unfoldable pub make_feature_not_supported : Arguments → Option Exception
unfolding make_sql_error
make_feature_not_supported a = derived feature_not_supported (make_sql_error a)

unfoldable pub make_data_exception : Arguments → Option Exception
unfolding make_sql_error
make_data_exception a = derived data_exception (make_sql_error a)

unfoldable pub make_integrity_constraint_violation : Arguments → Option Exception
unfolding make_sql_error
make_integrity_constraint_violation a = derived integrity_constraint_violation (make_sql_error a)

unfoldable pub make_invalid_cursor_state : Arguments → Option Exception
unfolding make_sql_error
make_invalid_cursor_state a = derived invalid_cursor_state (make_sql_error a)

unfoldable pub make_invalid_sql_statement_name : Arguments → Option Exception
unfolding make_sql_error
make_invalid_sql_statement_name a = derived invalid_sql_statement_name (make_sql_error a)

unfoldable pub make_invalid_cursor_name : Arguments → Option Exception
unfolding make_sql_error
make_invalid_cursor_name a = derived invalid_cursor_name (make_sql_error a)

unfoldable pub make_insufficient_privilege : Arguments → Option Exception
unfolding make_sql_error
make_insufficient_privilege a = derived insufficient_privilege (make_sql_error a)

unfoldable pub make_insufficient_resources : Arguments → Option Exception
unfolding make_sql_error
make_insufficient_resources a = derived insufficient_resources (make_sql_error a)

unfoldable pub make_restrict_violation : Arguments → Option Exception
unfolding make_integrity_constraint_violation
make_restrict_violation a = derived restrict_violation (make_integrity_constraint_violation a)

unfoldable pub make_not_null_violation : Arguments → Option Exception
unfolding make_integrity_constraint_violation
make_not_null_violation a = derived not_null_violation (make_integrity_constraint_violation a)

unfoldable pub make_foreign_key_violation : Arguments → Option Exception
unfolding make_integrity_constraint_violation
make_foreign_key_violation a = derived foreign_key_violation (make_integrity_constraint_violation a)

unfoldable pub make_unique_violation : Arguments → Option Exception
unfolding make_integrity_constraint_violation
make_unique_violation a = derived unique_violation (make_integrity_constraint_violation a)

unfoldable pub make_check_violation : Arguments → Option Exception
unfolding make_integrity_constraint_violation
make_check_violation a = derived check_violation (make_integrity_constraint_violation a)

unfoldable pub make_undefined_column : Arguments → Option Exception
unfolding make_syntax_error
make_undefined_column (with_state whatarg query sqlstate) =
    derived undefined_column (make_syntax_error (with_state whatarg query sqlstate))
make_undefined_column (with_codes whatarg query errcode extended) =
    derived undefined_column (make_syntax_error (with_codes whatarg query errcode extended))
make_undefined_column _ = none

unfoldable pub make_undefined_function : Arguments → Option Exception
unfolding make_syntax_error
make_undefined_function (with_state whatarg query sqlstate) =
    derived undefined_function (make_syntax_error (with_state whatarg query sqlstate))
make_undefined_function (with_codes whatarg query errcode extended) =
    derived undefined_function (make_syntax_error (with_codes whatarg query errcode extended))
make_undefined_function _ = none

unfoldable pub make_undefined_table : Arguments → Option Exception
unfolding make_syntax_error
make_undefined_table (with_state whatarg query sqlstate) =
    derived undefined_table (make_syntax_error (with_state whatarg query sqlstate))
make_undefined_table (with_codes whatarg query errcode extended) =
    derived undefined_table (make_syntax_error (with_codes whatarg query errcode extended))
make_undefined_table _ = none

unfoldable pub make_disk_full : Arguments → Option Exception
unfolding make_insufficient_resources
make_disk_full a = derived disk_full (make_insufficient_resources a)

unfoldable pub make_out_of_memory : Arguments → Option Exception
unfolding make_insufficient_resources
make_out_of_memory a = derived out_of_memory (make_insufficient_resources a)

-- The constructors of a class of the header.
unfoldable pub make : Class → Arguments → Option Exception
unfolding make_drogon_db_exception make_failure make_broken_connection make_sql_error
    make_in_doubt_error make_transaction_rollback make_serialization_failure
    make_statement_completion_unknown make_deadlock_detected make_internal_error
    make_unexpected_rows make_feature_not_supported make_data_exception
    make_integrity_constraint_violation make_restrict_violation make_not_null_violation
    make_foreign_key_violation make_unique_violation make_check_violation make_invalid_cursor_state
    make_invalid_sql_statement_name make_invalid_cursor_name make_syntax_error make_undefined_column
    make_undefined_function make_undefined_table make_insufficient_privilege
    make_insufficient_resources make_disk_full make_out_of_memory make_too_many_connections
    make_logic_error
make exception a = none
make runtime_error a = none
make logic_error a = none
make invalid_argument a = none
make domain_error a = none
make out_of_range a = none
make drogon_db_exception a = make_drogon_db_exception a
make failure a = make_failure a
make broken_connection a = make_broken_connection a
make sql_error a = make_sql_error a
make in_doubt_error a = make_in_doubt_error a
make transaction_rollback a = make_transaction_rollback a
make serialization_failure a = make_serialization_failure a
make statement_completion_unknown a = make_statement_completion_unknown a
make deadlock_detected a = make_deadlock_detected a
make internal_error a = make_internal_error a
make timeout_error a = make_logic_error timeout_error a
make usage_error a = make_logic_error usage_error a
make argument_error a = make_logic_error argument_error a
make conversion_error a = make_logic_error conversion_error a
make range_error a = make_logic_error range_error a
make unexpected_rows a = make_unexpected_rows a
make feature_not_supported a = make_feature_not_supported a
make data_exception a = make_data_exception a
make integrity_constraint_violation a = make_integrity_constraint_violation a
make restrict_violation a = make_restrict_violation a
make not_null_violation a = make_not_null_violation a
make foreign_key_violation a = make_foreign_key_violation a
make unique_violation a = make_unique_violation a
make check_violation a = make_check_violation a
make invalid_cursor_state a = make_invalid_cursor_state a
make invalid_sql_statement_name a = make_invalid_sql_statement_name a
make invalid_cursor_name a = make_invalid_cursor_name a
make syntax_error a = make_syntax_error a
make undefined_column a = make_undefined_column a
make undefined_function a = make_undefined_function a
make undefined_table a = make_undefined_table a
make insufficient_privilege a = make_insufficient_privilege a
make insufficient_resources a = make_insufficient_resources a
make disk_full a = make_disk_full a
make out_of_memory a = make_out_of_memory a
make too_many_connections a = make_too_many_connections a
