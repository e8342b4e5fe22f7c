-- ===== src/Database/Open.antt =====
-- `ServerDataBaseBuilder` of server/src/database.rs: opening a database, and the validation of one that
-- exists. What the file answers to each statement, and what the file system answers, is the
-- environment's. SQLite stores values of any kind in a column: what a stored count is, how the crate
-- `sqlx` reads it as an `i32` and how SQL compares it with zero are parameters.
pub mod Checked
use stss.Prelude.{
  Bool, true, false, not, ◌||◌, ◌&&◌, Option, none, some, List, [], ◌∷◌, String, Result, ok, err,
  map_err, ◌>>=◌, ◌>>◌, ensure, str_eq, ℤ, ltb_ℤ, leb_ℤ, pos, ◌≡◌, if◌then◌else◌,
}
use stss.Database.Schema.{SqlError}

pub data DataBaseLocation : Type 0 where
  memory : DataBaseLocation
  disk : String → DataBaseLocation

pub data DataBaseBuildError : Type 0 where
  validation constraint_violation unexpected_table : String → DataBaseBuildError
  sqlite : SqlError → DataBaseBuildError
  io : String → DataBaseBuildError

pub record Columns : Type 1 where
  pub Cell : Type 0
  pub to_i32 : Cell → Result SqlError ℤ
  pub at_least_zero : Cell → Bool

-- What the crate and SQLite document: only an integer that fits is read as an `i32`, and integers are
-- compared as integers.
pub record IsColumns (c : Columns) : Type 0 where
  pub to_i32_bounds :
      (cell : c.Cell) (z : ℤ)
      → c.to_i32 cell ≡ ok z
      → (ltb_ℤ z (pos 2147483648) ≡ true) × (c.at_least_zero cell ≡ leb_ℤ (pos 0) z)

pub record FileSystem : Type 0 where
  pub exists : String → Bool
  pub parent : String → Option String
  pub create_dir_all : String → Result String (Unit {0})

module _ (c : Columns) where
  -- A row of the audit query: a name and a count, or a failed step of the stream.
  abbrev pub AuditRow : Type 0
  AuditRow = Result SqlError (String × c.Cell)

  -- What an opened database answers: to the connection, to the schema of `initialize_db`, to the query
  -- of the table names, to the two test queries (whether it is an error), and to the audit query.
  pub record Answers : Type 0 where
    pub connect : Result SqlError (Unit {0})
    pub initialize : Result SqlError (Unit {0})
    pub table_names : Result SqlError (List String)
    pub is_err : String → Bool
    pub audit : List AuditRow

abbrev pub expected_table : String → Bool
expected_table table = str_eq table "users" || str_eq table "history"

unfoldable pub check_tables : List String → Result DataBaseBuildError (Unit {0})
check_tables [] = ok tt
check_tables (table ∷ tables) =
    ensure (expected_table table) (unexpected_table table) >>= λ _. check_tables tables

abbrev pub validation_queries : List String
validation_queries =
    "SELECT username, password_hash, available_tokens FROM users LIMIT 1"
    ∷ "SELECT username, timestamp, hash FROM history LIMIT 1;" ∷ []

unfoldable pub check_queries : (String → Bool) → List String → Result DataBaseBuildError (Unit {0})
check_queries is_err [] = ok tt
check_queries is_err (query ∷ queries) =
    ensure (not (is_err query)) (validation query) >>= λ _. check_queries is_err queries

-- The condition under which the directory of a new file is created.
abbrev pub missing_parent : FileSystem → String → Option String
missing_parent fs path = elim (fs.parent path) [
  | none ↦ none
  | some dir ↦ if not (str_eq dir "") && not (fs.exists dir) then some dir else none
]

abbrev pub create_parent : FileSystem → Option String → Result DataBaseBuildError (Unit {0})
create_parent fs none = ok tt
create_parent fs (some dir) = map_err io (fs.create_dir_all dir)

-- Whether the database is new, as `unchecked_build` finds it before it connects.
unfoldable pub prepare : FileSystem → DataBaseLocation → Result DataBaseBuildError Bool
prepare fs memory = ok true
prepare fs (disk path) =
    if fs.exists path then ok false else create_parent fs (missing_parent fs path) >>= λ _. ok true

module _ (c : Columns) where
  abbrev pub check_audit : AuditRow c → Result DataBaseBuildError (Unit {0})
  check_audit (err e) = err (sqlite e)
  check_audit (ok (username, cell)) = map_err sqlite (c.to_i32 cell) >>= λ _.
      ensure (c.at_least_zero cell) (constraint_violation username)

  unfoldable pub check_audits : List (AuditRow c) → Result DataBaseBuildError (Unit {0})
  check_audits [] = ok tt
  check_audits (row ∷ rows) = check_audit row >>= λ _. check_audits rows

  unfoldable pub validate : Answers c → Result DataBaseBuildError (Unit {0})
  validate a = do
    names ← map_err sqlite a.table_names
    check_tables names
    check_queries a.is_err validation_queries
    check_audits a.audit

  unfoldable pub unchecked_build :
      FileSystem → DataBaseLocation → Answers c → Result DataBaseBuildError Bool
  unchecked_build fs location a = do
    initialization_is_required ← prepare fs location
    map_err sqlite a.connect
    ok initialization_is_required

  unfoldable pub initialize_db : Answers c → Result DataBaseBuildError (Unit {0})
  initialize_db a = map_err sqlite a.initialize

  -- `build`; the result says whether the database is new, and so empty.
  unfoldable pub build : FileSystem → DataBaseLocation → Answers c → Result DataBaseBuildError Bool
  unfolding unchecked_build
  build fs location a = do
    is_new ← unchecked_build fs location a
    (if is_new then initialize_db a else validate a)
    ok is_new
