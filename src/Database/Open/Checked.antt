-- ===== src/Database/Open/Checked.antt =====
-- What it means that a database has been opened: `ServerDataBaseBuilder::build` of
-- server/src/database.rs.
use stss.Prelude.{
  Bool, true, false, not, List, [], ◌∷◌, All, String, Result, ok, err, ◌≡◌, arith, ℤ, pos, ltb_ℤ,
  leb_ℤ, ◌∙◌, sym, ensure, map_err, >>=_inverse, ensure_inverse, map_err_inverse, ◌>>=◌,
  if◌then◌else◌,
}
use mathlib.Core.Path.{subst}
use stss.Database.Open.{
  DataBaseLocation, memory, disk, DataBaseBuildError, sqlite, constraint_violation,
  unexpected_table, validation, Columns, IsColumns, FileSystem, AuditRow, Answers, expected_table,
  check_tables, check_queries, validation_queries, check_audit, check_audits, validate, prepare,
  unchecked_build, initialize_db, build,
}

check_tables_inverse :
    (names : List String)
    → check_tables names ≡ ok tt
    → All (λ name. expected_table name ≡ true) names
unfolding check_tables
check_tables_inverse [] h = tt
check_tables_inverse (name ∷ names) h =
    let (_, p, q) = >>=_inverse (ensure (expected_table name) (unexpected_table name)) _ h in
    (ensure_inverse _ _ p, check_tables_inverse names q)

check_queries_inverse :
    (is_err : String → Bool) (queries : List String)
    → check_queries is_err queries ≡ ok tt
    → All (λ query. is_err query ≡ false) queries
unfolding check_queries
check_queries_inverse is_err [] h = tt
check_queries_inverse is_err (query ∷ queries) h =
    let (_, p, q) = >>=_inverse (ensure (not (is_err query)) (validation query)) _ h in
    let passed = ensure_inverse (not (is_err query)) (validation query) p in
    (ground arith, check_queries_inverse is_err queries q)

module _ (c : Columns) where
  -- A row that was read and whose count is an integer from 0 to the greatest `i32`.
  abbrev pub IsSound : AuditRow c → Type 0
  IsSound (err e) = ⊥
  IsSound (ok (username, cell)) =
      (z : ℤ) × (c.to_i32 cell ≡ ok z)
      × (leb_ℤ (pos 0) z ≡ true)
      × (ltb_ℤ z (pos 2147483648) ≡ true)

  check_audit_inverse : (row : AuditRow c) → IsColumns c → check_audit c row ≡ ok tt → IsSound row
  check_audit_inverse (err e) law h = cc
  check_audit_inverse (ok (username, cell)) law h =
      let (z, p, q) = >>=_inverse (map_err sqlite (c.to_i32 cell)) _ h in
      let read = map_err_inverse sqlite (c.to_i32 cell) p in
      let (fits, compares) = law.to_i32_bounds cell z read in
      (z, read, sym compares ∙ ensure_inverse _ (constraint_violation username) q, fits)

  check_audits_inverse :
      (rows : List (AuditRow c)) → IsColumns c → check_audits c rows ≡ ok tt → All IsSound rows
  unfolding check_audits
  check_audits_inverse [] law h = tt
  check_audits_inverse (row ∷ rows) law h =
      let (_, p, q) = >>=_inverse (check_audit c row) _ h in
      (check_audit_inverse row law p, check_audits_inverse rows law q)

  -- A database file that passes the validation: no other tables, both test queries succeed, and every
  -- row of the audit is sound.
  pub record IsValidated (a : Answers c) : Type 0 where
    pub names : List String
    pub listed : a.table_names ≡ ok names
    pub expected : All (λ name. expected_table name ≡ true) names
    pub queries : All (λ query. a.is_err query ≡ false) validation_queries
    pub rows : All IsSound a.audit

  pub validate_inverse : (a : Answers c) → IsColumns c → validate c a ≡ ok tt → IsValidated a
  unfolding validate
  validate_inverse a law h =
      let (names, listed, h1) = >>=_inverse (map_err sqlite a.table_names) _ h in
      let (_, expected, h2) = >>=_inverse (check_tables names) _ h1 in
      let (_, queries, rows) = >>=_inverse (check_queries a.is_err validation_queries) _ h2 in
      record {
        names = names;
        listed = map_err_inverse sqlite _ listed;
        expected = check_tables_inverse names expected;
        queries = check_queries_inverse a.is_err validation_queries queries;
        rows = check_audits_inverse a.audit law rows;
      }

  abbrev pub is_new : FileSystem → DataBaseLocation → Bool
  is_new fs memory = true
  is_new fs (disk path) = not (fs.exists path)

  prepared :
      (fs : FileSystem) (path : String) (here : Bool) (r : Result DataBaseBuildError (Unit {0}))
      (b : Bool)
      → (if here then ok false else (r >>= λ _. ok true)) ≡ ok b
      → b ≡ not here
  prepared fs path true r b h = cc h
  prepared fs path false r b h = let (_, _, q) = >>=_inverse r _ h in cc q

  prepare-is_new :
      (fs : FileSystem) (location : DataBaseLocation) (b : Bool)
      → prepare fs location ≡ ok b
      → b ≡ is_new fs location
  unfolding prepare
  prepare-is_new fs memory b h = cc h
  prepare-is_new fs (disk path) b h = prepared fs path (fs.exists path) _ b h

  -- What an opened database has gone through: the schema for a new one, the validation for another.
  abbrev pub Checks : Answers c → Bool → Type 0
  Checks a true = a.initialize ≡ ok tt
  Checks a false = IsValidated a

  checked :
      (a : Answers c) (b : Bool)
      → IsColumns c
      → (if b then initialize_db c a else validate c a) ≡ ok tt
      → Checks a b
  unfolding initialize_db
  checked a true law h = map_err_inverse sqlite a.initialize h
  checked a false law h = validate_inverse a law h

  -- `build` succeeds only on a database that it could connect to, and says that it is new exactly if it
  -- is in memory or its file does not exist. A new one has got the schema. An existing one has no
  -- table besides `users` and `history`, answers both test queries, and every count of it is an
  -- integer from 0 to the greatest `i32`.
  pub build-Checks :
      (fs : FileSystem) (location : DataBaseLocation) (a : Answers c) (b : Bool)
      → IsColumns c
      → build c fs location a ≡ ok b
      → (a.connect ≡ ok tt) × (b ≡ is_new fs location) × Checks a b
  unfolding build unchecked_build
  build-Checks fs location a b law h =
      let (n, opened, h1) = >>=_inverse (unchecked_build c fs location a) _ h in
      let (m, found, h2) = >>=_inverse (prepare fs location) _ opened in
      let (_, connected, p) = >>=_inverse (map_err sqlite a.connect) _ h2 in
      let (_, check, q) = >>=_inverse (if n then initialize_db c a else validate c a) _ h1 in
      let same : n ≡ b = cc q in
      let first : m ≡ n = cc p in
      (
        map_err_inverse sqlite a.connect connected,
        sym same ∙ sym first ∙ prepare-is_new fs location m found,
        subst (Checks a) same (checked a n law check),
      )
