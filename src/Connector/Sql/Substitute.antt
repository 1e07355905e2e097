-- ===== src/Connector/Sql/Substitute.antt =====
-- The built statement against a substitution that reads the text byte by byte.
use mysql_connect_pool.Prelude.{
  ℕ, zero, suc, ◌≡◌, refl, ap, sym, ◌∙◌, Option, none, some, List, [], ◌∷◌, ◌++◌, append-nil,
  append_assoc, ◌==◌, if◌then◌else◌, arith, take, drop, Option-cases, inl, inr,
}
use mysql_connect_pool.Connector.Sql.{
  Parameter, find_char, parameter_text, put_parameters, append_rest, build_sql,
}

-- `text`, then what follows it.
abbrev pub prepend : Option (List ℕ) → Option (List ℕ) → Option (List ℕ)
prepend (some text) (some rest) = some (text ++ rest)
prepend (some text) none = none
prepend none _ = none

module _ (escape : List ℕ → List ℕ) where
  -- Each question mark in turn gives way to the next parameter; marks past the last parameter
  -- stay, and parameters past the last mark are dropped.
  pub substitute : List Parameter → List ℕ → Option (List ℕ)
  substitute [] sql = some sql
  substitute (p ∷ ps) [] = some []
  substitute (p ∷ ps) (c ∷ cs) =
      if c == b'?'
      then prepend (parameter_text escape p) (substitute ps cs)
      else prepend (some (c ∷ [])) (substitute (p ∷ ps) cs)

  prepend_assoc :
      (a b : List ℕ) (r : Option (List ℕ))
      → prepend (some a) (prepend (some b) r) ≡ prepend (some (a ++ b)) r
  prepend_assoc a b none = refl
  prepend_assoc a b (some r) = ap some (sym (append_assoc a b r))

  prepend_nil : (r : Option (List ℕ)) → prepend (some []) r ≡ r
  prepend_nil none = refl
  prepend_nil (some r) = refl

  substitute-no_mark :
      (p : Parameter) (ps : List Parameter) (sql : List ℕ)
      → find_char b'?' sql ≡ none
      → substitute (p ∷ ps) sql ≡ some sql
  unfolding substitute find_char
  substitute-no_mark p ps [] h = refl
  substitute-no_mark p ps (c ∷ cs) h = ground (arith, substitute-no_mark p ps cs)

  substitute-mark :
      (p : Parameter) (ps : List Parameter) (sql : List ℕ) (k : ℕ)
      → find_char b'?' sql ≡ some k
      → substitute (p ∷ ps) sql
        ≡ prepend
            (some (take k sql))
            (prepend (parameter_text escape p) (substitute ps (drop (suc k) sql)))
  unfolding substitute find_char
  substitute-mark p ps [] k h = cc
  substitute-mark p ps (c ∷ cs) zero h =
      ground (arith, prepend_nil (prepend (parameter_text escape p) (substitute ps cs)))
  substitute-mark p ps (c ∷ cs) (suc k) h = ground (
    arith,
    substitute-mark p ps cs k,
    prepend_assoc (c ∷ []) (take k cs)
        (prepend (parameter_text escape p) (substitute ps (drop (suc k) cs))),
  )

  put_parameters-substitute :
      (ps : List Parameter) (rest out : List ℕ)
      → append_rest escape (put_parameters escape ps (rest, out))
        ≡ prepend (some out) (substitute ps rest)
  unfolding put_parameters append_rest substitute
  put_parameters-substitute [] rest out = refl
  put_parameters-substitute (p ∷ ps) rest out = elim (Option-cases (find_char b'?' rest)) [
    | inl e ↦
        rw (e, put_parameters)
          (ground (arith, substitute-no_mark p ps rest e, append-nil (out ++ rest)))
    | inr (k, e) ↦ elim (Option-cases (parameter_text escape p)) [
      | inl n ↦ rw (e, n, put_parameters) (rw (substitute-mark p ps rest k e, n) refl)
      | inr (text, y) ↦
          rw (e, y, put_parameters)
            (rw (substitute-mark p ps rest k e, y)
              (put_parameters-substitute ps (drop (suc k) rest) ((out ++ take k rest) ++ text)
                ∙ sym (prepend_assoc (out ++ take k rest) text (substitute ps (drop (suc k) rest)))
                ∙ sym (
                    prepend_assoc out (take k rest)
                      (prepend (some text) (substitute ps (drop (suc k) rest))))))
    ]
  ]

  -- The statement that `execSqlInLoop` builds, for any parameters and any text, is that of
  -- `substitute`, which reads the text byte by byte; so is the failure.
  pub build_sql-substitute :
      (ps : List Parameter) (sql : List ℕ) → build_sql escape ps sql ≡ substitute ps sql
  unfolding build_sql substitute
  build_sql-substitute [] sql = refl
  build_sql-substitute (p ∷ ps) sql =
      put_parameters-substitute (p ∷ ps) sql [] ∙ prepend_nil (substitute (p ∷ ps) sql)
