-- ===== src/Db/Exception.antt =====
-- db/Exception.h and db/Exception.cpp: the classes of the errors, what they derive from, and their
-- constructors. An exception is its class, and the fields that its base-class objects hold.
pub mod Hierarchy
pub mod Make
pub mod Caught
pub mod Bases
use mysql_connect_pool.Prelude.{ℕ, Option, none, some, List, [], ◌∷◌, ◌++◌}
use mysql_connect_pool.Prelude.Int.{ℤ, pos, negsuc}

-- The classes of the standard library that the header derives from, then its own.
pub data Class : Type 0 where
  exception runtime_error logic_error invalid_argument domain_error out_of_range : Class
  drogon_db_exception failure broken_connection sql_error in_doubt_error : Class
  transaction_rollback serialization_failure statement_completion_unknown : Class
  deadlock_detected internal_error timeout_error usage_error argument_error : Class
  conversion_error range_error unexpected_rows feature_not_supported data_exception : Class
  integrity_constraint_violation restrict_violation not_null_violation : Class
  foreign_key_violation unique_violation check_violation invalid_cursor_state : Class
  invalid_sql_statement_name invalid_cursor_name syntax_error undefined_column : Class
  undefined_function undefined_table insufficient_privilege insufficient_resources : Class
  disk_full out_of_memory too_many_connections : Class

-- The fields of `SqlError`.
pub record SqlPart : Type 0 where
  pub query : List ℕ
  pub sql_state : List ℕ
  pub errcode : ℤ
  pub extended_errcode : ℤ

pub record Exception : Type 0 where
  pub class : Class
  pub what : List ℕ
  pub sql_part : Option SqlPart
  pub error_position : Option ℤ

-- The arguments of a constructor; a null `sqlstate` is `none`. The default arguments are those of
-- `with_state`: an empty message or query, and null.
pub data Arguments : Type 0 where
  no_arguments : Arguments
  message : (whatarg : List ℕ) → Arguments
  with_state : (whatarg query : List ℕ) (sqlstate : Option (List ℕ)) → Arguments
  with_codes : (whatarg query : List ℕ) (errcode extended_errcode : ℤ) → Arguments
  with_position : (whatarg query : List ℕ) (sqlstate : Option (List ℕ)) (position : ℤ) → Arguments
  with_codes_position :
      (whatarg query : List ℕ) (errcode extended_errcode : ℤ) (position : ℤ) → Arguments

-- An object of a derived class, from the base-class object that its constructor makes first.
abbrev pub derived : Class → Option Exception → Option Exception
derived c none = none
derived c (some e) = some (record e { class = c })

-- A class whose constructor hands its message on.
abbrev pub with_message : Class → List ℕ → Option Exception
with_message c whatarg =
    some (record { class = c; what = whatarg; sql_part = none; error_position = none })

-- "Connection to database failed"
abbrev pub connection_failed : List ℕ
connection_failed =
    b'C' ∷ b'o' ∷ b'n' ∷ b'n' ∷ b'e' ∷ b'c' ∷ b't' ∷ b'i' ∷ b'o' ∷ b'n' ∷ b' ' ∷ b't' ∷ b'o' ∷ b' '
    ∷ b'd' ∷ b'a' ∷ b't' ∷ b'a' ∷ b'b' ∷ b'a' ∷ b's' ∷ b'e' ∷ b' ' ∷ b'f' ∷ b'a' ∷ b'i' ∷ b'l'
    ∷ b'e' ∷ b'd' ∷ []

-- "drogon database internal error: "
abbrev pub internal_prefix : List ℕ
internal_prefix =
    b'd' ∷ b'r' ∷ b'o' ∷ b'g' ∷ b'o' ∷ b'n' ∷ b' ' ∷ b'd' ∷ b'a' ∷ b't' ∷ b'a' ∷ b'b' ∷ b'a' ∷ b's'
    ∷ b'e' ∷ b' ' ∷ b'i' ∷ b'n' ∷ b't' ∷ b'e' ∷ b'r' ∷ b'n' ∷ b'a' ∷ b'l' ∷ b' ' ∷ b'e' ∷ b'r'
    ∷ b'r' ∷ b'o' ∷ b'r' ∷ b':' ∷ b' ' ∷ []

-- `sqlstate ? sqlstate : ""`
abbrev pub state_text : Option (List ℕ) → List ℕ
state_text none = []
state_text (some s) = s

unfoldable pub make_failure : Arguments → Option Exception
make_failure (message whatarg) = with_message failure whatarg
make_failure _ = none

unfoldable pub make_broken_connection : Arguments → Option Exception
unfolding make_failure
make_broken_connection no_arguments =
    derived broken_connection (make_failure (message connection_failed))
make_broken_connection (message whatarg) =
    derived broken_connection (make_failure (message whatarg))
make_broken_connection _ = none

add_sql_part : Option Exception → SqlPart → Option Exception
add_sql_part none p = none
add_sql_part (some e) p = some (record e { class = sql_error; sql_part = some p })

unfoldable pub make_sql_error : Arguments → Option Exception
unfolding make_failure add_sql_part
make_sql_error (with_state whatarg query sqlstate) =
    add_sql_part (make_failure (message whatarg)) (record {
      query = query;
      sql_state = state_text sqlstate;
      errcode = pos 0;
      extended_errcode = pos 0;
    })
make_sql_error (with_codes whatarg query errcode extended_errcode) =
    add_sql_part (make_failure (message whatarg)) (record {
      query = query;
      sql_state = [];
      errcode = errcode;
      extended_errcode = extended_errcode;
    })
make_sql_error _ = none

-- `SyntaxError`, with the position of the error, or -1.
at_position : ℤ → Option Exception → Option Exception
at_position p none = none
at_position p (some e) = some (record e { class = syntax_error; error_position = some p })

unfoldable pub make_syntax_error : Arguments → Option Exception
unfolding make_sql_error at_position
make_syntax_error (with_state whatarg query sqlstate) =
    at_position (negsuc 0) (make_sql_error (with_state whatarg query sqlstate))
make_syntax_error (with_codes whatarg query errcode extended_errcode) =
    at_position (negsuc 0) (make_sql_error (with_codes whatarg query errcode extended_errcode))
make_syntax_error (with_position whatarg query sqlstate position) =
    at_position position (make_sql_error (with_state whatarg query sqlstate))
make_syntax_error (with_codes_position whatarg query errcode extended_errcode position) =
    at_position position (make_sql_error (with_codes whatarg query errcode extended_errcode))
make_syntax_error _ = none
