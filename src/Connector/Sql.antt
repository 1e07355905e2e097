-- ===== src/Connector/Sql.antt =====
-- The text of a statement: the loop of `execSqlInLoop` (MySQLImpl/MySQLConnector.cpp) that puts
-- the parameters in the places of the question marks. A text is the list of its bytes.
pub mod Substitute
use mysql_connect_pool.Prelude.{
  ℕ, zero, suc, ◌+◌, ◌-◌, ◌/◌, ◌%◌, Bool, Option, none, some, List, [], ◌∷◌, ◌++◌, ltb, ◌==◌,
  if◌then◌else◌, take, drop,
}

-- A parameter as its `format` says to read it: the types of `cxk::type` (db/DbTypes.h), and any
-- other code. An integer is its sign and its magnitude.
pub data Parameter : Type 0 where
  mysql_tiny mysql_short mysql_long mysql_long_long : Bool → ℕ → Parameter
  mysql_null : Parameter
  mysql_string : List ℕ → Parameter
  drogon_default_value : Parameter
  unrecognized : ℕ → Parameter

-- Decimal digits; a number has fewer digits than the fuel that `to_string` gives.
unfoldable pub decimal : ℕ → ℕ → List ℕ
decimal zero n = []
decimal (suc fuel) n =
    let front = decimal fuel (n / 10) in
    if ltb n 10 then (n + b'0') ∷ [] else front ++ ((n % 10 + b'0') ∷ [])

-- `std::to_string`
unfoldable pub to_string : Bool → ℕ → List ℕ
unfolding decimal
to_string negative n = if negative then b'-' ∷ decimal (n + 1) n else decimal (n + 1) n

-- The position of a byte, `none` for `npos`.
unfoldable pub find_char : ℕ → List ℕ → Option ℕ
find_char c [] = none
find_char c (x ∷ xs) =
    if x == c then some 0 else elim (find_char c xs) [ none ↦ none | some i ↦ some (suc i) ]

-- `mysql_real_escape_string` on the connection's handle is a parameter.
module _ (real_escape_string : List ℕ → List ℕ) where
  -- The `switch (format[i])`; `none` is the call of `abort`.
  unfoldable pub parameter_text : Parameter → Option (List ℕ)
  unfolding to_string
  parameter_text (mysql_tiny negative n) = some (to_string negative n)
  parameter_text (mysql_short negative n) = some (to_string negative n)
  parameter_text (mysql_long negative n) = some (to_string negative n)
  parameter_text (mysql_long_long negative n) = some (to_string negative n)
  parameter_text mysql_null = some (b'N' ∷ b'U' ∷ b'L' ∷ b'L' ∷ [])
  parameter_text (mysql_string s) = some (b'\'' ∷ (real_escape_string s ++ (b'\'' ∷ [])))
  parameter_text drogon_default_value = some (b'd' ∷ b'e' ∷ b'f' ∷ b'a' ∷ b'u' ∷ b'l' ∷ b't' ∷ [])
  parameter_text (unrecognized code) = none

  -- What is left of `sql` from `pos` on, and `sql_` so far.
  abbrev pub Progress : Type 0
  Progress = List ℕ × List ℕ

  -- One round, `seekPos` found: the text before the mark, then the parameter.
  unfoldable pub put_parameter : ℕ → Option (List ℕ) → Progress → Option Progress
  put_parameter k none (rest, out) = none
  put_parameter k (some text) (rest, out) = some (drop (suc k) rest, (out ++ take k rest) ++ text)

  -- The `for` loop over the parameters. With no mark left it ends with `pos` at `npos`.
  unfoldable pub put_parameters : List Parameter → Progress → Option Progress
  unfolding find_char parameter_text put_parameter
  put_parameters [] (rest, out) = some (rest, out)
  put_parameters (p ∷ ps) (rest, out) = elim (find_char b'?' rest) [
    | none ↦ some ([], out ++ rest)
    | some k ↦ elim (put_parameter k (parameter_text p) (rest, out)) [
      | none ↦ none
      | some next ↦ put_parameters ps next
    ]
  ]

  -- `if (pos < sql.length())`: append the rest.
  unfoldable pub append_rest : Option Progress → Option (List ℕ)
  append_rest none = none
  append_rest (some (rest, out)) = some (out ++ rest)

  -- `sql_` as `startQuery` gets it; with no parameters it is `sql`.
  unfoldable pub build_sql : List Parameter → List ℕ → Option (List ℕ)
  unfolding put_parameters append_rest
  build_sql [] sql = some sql
  build_sql (p ∷ ps) sql = append_rest (put_parameters (p ∷ ps) (sql, []))
