-- ===== src/Db/ConnString.antt =====
-- db/DbConnection.cpp: the value of a parameter of the connection string, of the text that the
-- regular expression matched; and what the constructor in MySQLImpl/MySQLConnector.cpp takes from the
-- map of names and values.
pub mod Values
use mysql_connect_pool.Prelude.{
  ℕ, zero, suc, Bool, true, false, ◌&&◌, ◌||◌, Option, none, some, List, [], ◌∷◌, ltb, ◌==◌,
  if◌then◌else◌, length,
}
use mysql_connect_pool.Db.ArrayParser.{same_text}
use mysql_connect_pool.Db.ResultImpl.{lower}

-- `!rawValue.empty() && rawValue[0] == '\'' && rawValue.back() == '\''`
unfoldable pub ends_quoted : List ℕ → Bool
ends_quoted [] = false
ends_quoted (c ∷ []) = c == b'\''
ends_quoted (c ∷ d ∷ s) = ends_quoted (d ∷ s)

unfoldable pub is_quoted : List ℕ → Bool
unfolding ends_quoted
is_quoted [] = false
is_quoted (c ∷ s) = c == b'\'' && ends_quoted (c ∷ s)

-- The loop over the bytes of `rawValue`, from one on; `first` says that it is the first of all.
unfoldable pub unescape : Bool → Bool → List ℕ → List ℕ
unescape quoted first [] = []
unescape quoted first (c ∷ []) = if quoted then [] else c ∷ []
unescape quoted first (c ∷ d ∷ s) =
    let skipped = unescape quoted false (d ∷ s) in
    let behind = unescape quoted false s in
    if quoted && first then skipped else if c == b'\\' then d ∷ behind else c ∷ skipped

unfoldable pub value_of_raw : List ℕ → List ℕ
unfolding unescape is_quoted
value_of_raw raw = unescape (is_quoted raw) true raw

pub record Settings : Type 0 where
  pub host : List ℕ
  pub user : List ℕ
  pub dbname : List ℕ
  pub port : List ℕ
  pub password : List ℕ
  pub client_encoding : List ℕ

abbrev pub host_key : List ℕ
host_key = b'h' ∷ b'o' ∷ b's' ∷ b't' ∷ []

abbrev pub user_key : List ℕ
user_key = b'u' ∷ b's' ∷ b'e' ∷ b'r' ∷ []

abbrev pub dbname_key : List ℕ
dbname_key = b'd' ∷ b'b' ∷ b'n' ∷ b'a' ∷ b'm' ∷ b'e' ∷ []

abbrev pub port_key : List ℕ
port_key = b'p' ∷ b'o' ∷ b'r' ∷ b't' ∷ []

abbrev pub password_key : List ℕ
password_key = b'p' ∷ b'a' ∷ b's' ∷ b's' ∷ b'w' ∷ b'o' ∷ b'r' ∷ b'd' ∷ []

abbrev pub client_encoding_key : List ℕ
client_encoding_key =
    b'c' ∷ b'l' ∷ b'i' ∷ b'e' ∷ b'n' ∷ b't' ∷ b'_' ∷ b'e' ∷ b'n' ∷ b'c' ∷ b'o' ∷ b'd' ∷ b'i' ∷ b'n'
    ∷ b'g' ∷ []

-- One round of the constructor's loop.
unfoldable pub put_setting : List ℕ → List ℕ → Settings → Settings
unfolding same_text
put_setting key value s =
    if same_text key host_key
    then record s { host = value }
    else if same_text key user_key
    then record s { user = value }
    else if same_text key dbname_key
    then record s { dbname = value }
    else if same_text key port_key
    then record s { port = value }
    else if same_text key password_key
    then record s { password = value }
    else if same_text key client_encoding_key
    then record s { client_encoding = value }
    else s

unfoldable pub put_settings : List (List ℕ × List ℕ) → Settings → Settings
put_settings [] s = s
put_settings ((key, value) ∷ m) s = put_settings m (put_setting (lower key) value s)
