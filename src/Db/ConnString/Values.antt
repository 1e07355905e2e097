-- ===== src/Db/ConnString/Values.antt =====
-- The values of a connection string (db/DbConnection.cpp) and the members that the constructor of
-- MySQLImpl/MySQLConnector.cpp takes from them.
use mysql_connect_pool.Prelude.{
  ℕ, ◌<◌, ◌≡◌, refl, ◌∙◌, true, false, List, [], ◌∷◌, ◌++◌, arith, ◌==◌, if◌then◌else◌, length,
  length-append, Bool-cases, inl, inr,
}
use mysql_connect_pool.Db.ArrayParser.{same_text}
use mysql_connect_pool.Db.ResultImpl.{lower}
use mysql_connect_pool.Db.ResultImpl.Columns.{same_text-eq}
use mysql_connect_pool.Db.ConnString.{
  ends_quoted, is_quoted, unescape, value_of_raw, Settings, host_key, user_key, dbname_key,
  port_key, password_key, client_encoding_key, put_setting, put_settings,
}

-- A value with a backslash before each backslash, between single quotes.
abbrev escape : List ℕ → List ℕ
escape [] = []
escape (c ∷ s) = if c == b'\\' then b'\\' ∷ c ∷ escape s else c ∷ escape s

pub quote : List ℕ → List ℕ
quote v = b'\'' ∷ (escape v ++ (b'\'' ∷ []))

unescape-cons :
    (c : ℕ) (s : List ℕ)
    → (c == b'\\') ≡ false
    → 0 < length s
    → unescape true false (c ∷ s) ≡ c ∷ unescape true false s
unfolding unescape
unescape-cons c [] e h = absurd (omega arith)
unescape-cons c (d ∷ s) e h = rw e refl

some_quote : (s : List ℕ) → 0 < length (s ++ (b'\'' ∷ []))
some_quote s = rw length-append (omega arith)

unescape-escape : (v : List ℕ) → unescape true false (escape v ++ (b'\'' ∷ [])) ≡ v
unfolding unescape
unescape-escape [] = refl
unescape-escape (c ∷ v) = elim (Bool-cases (c == b'\\')) [
  | inl e ↦ rw (e, unescape-escape v) refl
  | inr e ↦
      rw
        (e, unescape-cons c (escape v ++ (b'\'' ∷ [])) e (some_quote (escape v)), unescape-escape v)
        refl
]

unescape-first :
    (s : List ℕ) → 0 < length s → unescape true true (b'\'' ∷ s) ≡ unescape true false s
unfolding unescape
unescape-first [] h = absurd (omega arith)
unescape-first (d ∷ s) h = refl

ends_quoted-append : (s : List ℕ) → ends_quoted (s ++ (b'\'' ∷ [])) ≡ true
unfolding ends_quoted
ends_quoted-append [] = refl
ends_quoted-append (c ∷ []) = refl
ends_quoted-append (c ∷ d ∷ s) = ends_quoted-append (d ∷ s)

-- Every value is read back from the text that has it between single quotes, with a backslash before
-- each backslash.
pub value_of_raw-quote : (v : List ℕ) → value_of_raw (quote v) ≡ v
unfolding value_of_raw quote is_quoted
value_of_raw-quote v =
    rw
      (
        ends_quoted-append (b'\'' ∷ escape v),
        unescape-first (escape v ++ (b'\'' ∷ [])) (some_quote (escape v)),
      )
      (unescape-escape v)

-- The value of the last name that is this one in lower case, else the one given.
pub last_value : List ℕ → List ℕ → List (List ℕ × List ℕ) → List ℕ
last_value name d [] = d
last_value name d ((key, value) ∷ m) =
    last_value name (if same_text (lower key) name then value else d) m

abbrev pub chosen : List ℕ → List ℕ → List ℕ → List ℕ → List ℕ
chosen key name value d = if same_text key name then value else d

put_setting_lem :
    (key value : List ℕ) (s : Settings)
    → put_setting key value s ≡ record {
      host = chosen key host_key value s.host;
      user = chosen key user_key value s.user;
      dbname = chosen key dbname_key value s.dbname;
      port = chosen key port_key value s.port;
      password = chosen key password_key value s.password;
      client_encoding = chosen key client_encoding_key value s.client_encoding;
    }
unfolding put_setting same_text
put_setting_lem key value s = elim (Bool-cases (same_text key host_key)) [
  | inl e ↦ rw (same_text-eq key host_key e) refl
  | inr e1 ↦ elim (Bool-cases (same_text key user_key)) [
    | inl e ↦ rw (same_text-eq key user_key e) refl
    | inr e2 ↦ elim (Bool-cases (same_text key dbname_key)) [
      | inl e ↦ rw (same_text-eq key dbname_key e) refl
      | inr e3 ↦ elim (Bool-cases (same_text key port_key)) [
        | inl e ↦ rw (same_text-eq key port_key e) refl
        | inr e4 ↦ elim (Bool-cases (same_text key password_key)) [
          | inl e ↦ rw (same_text-eq key password_key e) refl
          | inr e5 ↦ elim (Bool-cases (same_text key client_encoding_key)) [
            | inl e ↦ rw (same_text-eq key client_encoding_key e) refl
            | inr e6 ↦ rw (e1, e2, e3, e4, e5, e6) refl
          ]
        ]
      ]
    ]
  ]
]

-- After the constructor's loop each of the six members holds the value of the last entry of the map
-- whose name, in lower case, is the member's, and what it held before when there is none.
pub put_settings-last_value :
    (m : List (List ℕ × List ℕ)) (s : Settings)
    → put_settings m s ≡ record {
      host = last_value host_key s.host m;
      user = last_value user_key s.user m;
      dbname = last_value dbname_key s.dbname m;
      port = last_value port_key s.port m;
      password = last_value password_key s.password m;
      client_encoding = last_value client_encoding_key s.client_encoding m;
    }
unfolding put_settings last_value
put_settings-last_value [] s = refl
put_settings-last_value ((key, value) ∷ m) s =
    put_settings-last_value m (put_setting (lower key) value s)
    ∙ rw (put_setting_lem (lower key) value s) refl
