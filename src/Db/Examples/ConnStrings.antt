-- ===== src/Db/Examples/ConnStrings.antt =====
-- The theorems on connection strings.
use mysql_connect_pool.Prelude.{ℕ, ◌≡◌, List, [], ◌∷◌}
use mysql_connect_pool.Db.ConnString.{
  Settings, value_of_raw, put_settings, host_key, user_key, dbname_key, port_key, password_key,
  client_encoding_key,
}
use mysql_connect_pool.Db.ConnString.Values.{
  quote, value_of_raw-quote, last_value, put_settings-last_value,
}

-- `a\'b c`
abbrev odd_value : List ℕ
odd_value = b'a' ∷ b'\\' ∷ b'\'' ∷ b'b' ∷ b' ' ∷ b'c' ∷ []

value_of_raw-quote_example : value_of_raw (quote odd_value) ≡ odd_value
value_of_raw-quote_example = value_of_raw-quote odd_value

abbrev unset : Settings
unset = record { host = []; user = []; dbname = []; port = []; password = []; client_encoding = [] }

-- `HOST` and `host`
abbrev two_hosts : List (List ℕ × List ℕ)
two_hosts = ((b'H' ∷ b'O' ∷ b'S' ∷ b'T' ∷ []), b'a' ∷ []) ∷ (host_key, b'b' ∷ []) ∷ []

put_settings-last_value_example : put_settings two_hosts unset ≡ record {
  host = last_value host_key [] two_hosts;
  user = last_value user_key [] two_hosts;
  dbname = last_value dbname_key [] two_hosts;
  port = last_value port_key [] two_hosts;
  password = last_value password_key [] two_hosts;
  client_encoding = last_value client_encoding_key [] two_hosts;
}
put_settings-last_value_example = put_settings-last_value two_hosts unset
