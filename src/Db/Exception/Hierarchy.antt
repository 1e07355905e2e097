-- ===== src/Db/Exception/Hierarchy.antt =====
-- db/Exception.h: what each class derives from, which of them override `base`, and what a handler
-- catches. No base class is virtual and all are public, so an object holds a base-class object for
-- each way of deriving.
use mysql_connect_pool.Prelude.{
  ℕ, zero, suc, ◌+◌, ◌==◌, Bool, true, false, List, [], ◌∷◌, ◌++◌, if◌then◌else◌,
}
use mysql_connect_pool.Db.Exception.{
  Class, exception, runtime_error, logic_error, invalid_argument, domain_error, out_of_range,
  drogon_db_exception, failure, broken_connection, sql_error, in_doubt_error, transaction_rollback,
  serialization_failure, statement_completion_unknown, deadlock_detected, internal_error,
  timeout_error, usage_error, argument_error, conversion_error, range_error, unexpected_rows,
  feature_not_supported, data_exception, integrity_constraint_violation, restrict_violation,
  not_null_violation, foreign_key_violation, unique_violation, check_violation,
  invalid_cursor_state, invalid_sql_statement_name, invalid_cursor_name, syntax_error,
  undefined_column, undefined_function, undefined_table, insufficient_privilege,
  insufficient_resources, disk_full, out_of_memory, too_many_connections,
}

-- The direct base classes.
unfoldable pub bases : Class → List Class
bases exception = []
bases runtime_error = exception ∷ []
bases logic_error = exception ∷ []
bases invalid_argument = logic_error ∷ []
bases domain_error = logic_error ∷ []
bases out_of_range = logic_error ∷ []
bases drogon_db_exception = []
bases failure = drogon_db_exception ∷ runtime_error ∷ []
bases broken_connection = failure ∷ []
bases sql_error = failure ∷ []
bases in_doubt_error = failure ∷ []
bases transaction_rollback = failure ∷ []
bases serialization_failure = transaction_rollback ∷ []
bases statement_completion_unknown = transaction_rollback ∷ []
bases deadlock_detected = transaction_rollback ∷ []
bases internal_error = drogon_db_exception ∷ logic_error ∷ []
bases timeout_error = drogon_db_exception ∷ logic_error ∷ []
bases usage_error = drogon_db_exception ∷ logic_error ∷ []
bases argument_error = drogon_db_exception ∷ invalid_argument ∷ []
bases conversion_error = drogon_db_exception ∷ domain_error ∷ []
bases range_error = drogon_db_exception ∷ out_of_range ∷ []
bases unexpected_rows = range_error ∷ []
bases feature_not_supported = sql_error ∷ []
bases data_exception = sql_error ∷ []
bases integrity_constraint_violation = sql_error ∷ []
bases restrict_violation = integrity_constraint_violation ∷ []
bases not_null_violation = integrity_constraint_violation ∷ []
bases foreign_key_violation = integrity_constraint_violation ∷ []
bases unique_violation = integrity_constraint_violation ∷ []
bases check_violation = integrity_constraint_violation ∷ []
bases invalid_cursor_state = sql_error ∷ []
bases invalid_sql_statement_name = sql_error ∷ []
bases invalid_cursor_name = sql_error ∷ []
bases syntax_error = sql_error ∷ []
bases undefined_column = syntax_error ∷ []
bases undefined_function = syntax_error ∷ []
bases undefined_table = syntax_error ∷ []
bases insufficient_privilege = sql_error ∷ []
bases insufficient_resources = sql_error ∷ []
bases disk_full = insufficient_resources ∷ []
bases out_of_memory = insufficient_resources ∷ []
bases too_many_connections = broken_connection ∷ []

-- A class by its place in the header.
unfoldable pub class_number : Class → ℕ
class_number exception = 0
class_number runtime_error = 1
class_number logic_error = 2
class_number invalid_argument = 3
class_number domain_error = 4
class_number out_of_range = 5
class_number drogon_db_exception = 6
class_number failure = 7
class_number broken_connection = 8
class_number sql_error = 9
class_number in_doubt_error = 10
class_number transaction_rollback = 11
class_number serialization_failure = 12
class_number statement_completion_unknown = 13
class_number deadlock_detected = 14
class_number internal_error = 15
class_number timeout_error = 16
class_number usage_error = 17
class_number argument_error = 18
class_number conversion_error = 19
class_number range_error = 20
class_number unexpected_rows = 21
class_number feature_not_supported = 22
class_number data_exception = 23
class_number integrity_constraint_violation = 24
class_number restrict_violation = 25
class_number not_null_violation = 26
class_number foreign_key_violation = 27
class_number unique_violation = 28
class_number check_violation = 29
class_number invalid_cursor_state = 30
class_number invalid_sql_statement_name = 31
class_number invalid_cursor_name = 32
class_number syntax_error = 33
class_number undefined_column = 34
class_number undefined_function = 35
class_number undefined_table = 36
class_number insufficient_privilege = 37
class_number insufficient_resources = 38
class_number disk_full = 39
class_number out_of_memory = 40
class_number too_many_connections = 41

abbrev pub same_class : Class → Class → Bool
same_class a b = class_number a == class_number b

sum : List ℕ → ℕ
sum [] = 0
sum (n ∷ ns) = n + sum ns

apply_each : {A : Type 0} → (Class → A) → List Class → List A
apply_each f [] = []
apply_each f (c ∷ cs) = f c ∷ apply_each f cs

-- The base-class objects of class `b` in an object of class `c`, itself included, for a `c` that is
-- at most `depth` steps below its farthest base.
unfoldable pub copies : (depth : ℕ) → (b c : Class) → ℕ
unfolding bases class_number sum apply_each
copies zero b c = if same_class b c then 1 else 0
copies (suc depth) b c =
    (if same_class b c then 1 else 0) + sum (apply_each (copies depth b) (bases c))

-- The farthest base is the `exception` of the classes under `SyntaxError`.
abbrev pub deepest : ℕ
deepest = 5

-- Whether a handler for `const B &` catches an object of class `c`: just one `B` is in it.
unfoldable pub handler_catches : (b c : Class) → Bool
unfolding copies
handler_catches b c = copies deepest b c == 1

-- The classes with a `base` of their own, which returns `*this`.
unfoldable pub overrides_base : Class → Bool
overrides_base failure = true
overrides_base internal_error = true
overrides_base timeout_error = true
overrides_base usage_error = true
overrides_base argument_error = true
overrides_base conversion_error = true
overrides_base range_error = true
overrides_base unexpected_rows = true
overrides_base _ = false

-- What a call of `base` runs: the function of a class that returns the object itself, or that of
-- `DrogonDbException`, which returns a static `std::exception`.
pub data Base : Type 0 where
  own : Class → Base
  static_exception : Base

join_bases : List (List Base) → List Base
join_bases [] = []
join_bases (b ∷ bs) = b ++ join_bases bs

-- The functions that the nearest classes define.
unfoldable pub base_functions : (depth : ℕ) → Class → List Base
unfolding overrides_base class_number bases apply_each join_bases
base_functions zero c = []
base_functions (suc depth) c =
    if overrides_base c
    then own c ∷ []
    else if same_class drogon_db_exception c
    then static_exception ∷ []
    else join_bases (apply_each (base_functions depth) (bases c))
