-- ===== src/Database/Schema.antt =====
-- The two tables of server/src/database.rs, the SQL statements that its methods send, and its error
-- types. A statement is translated from its SQL text: a query reads the rows that its WHERE clause
-- selects, an INSERT is refused by PRIMARY KEY, CHECK and FOREIGN KEY as the schema of
-- `initialize_db` declares them, an UPDATE rewrites every row that its WHERE clause selects.
use stss.Prelude.{
  ℕ, Bool, true, false, ◌&&◌, Option, none, some, List, [], ◌∷◌, ◌++◌, String, Result, ok, err, ℤ,
  pos, ltb_ℤ, str_eq, take, if◌then◌else◌,
}
use Prim.Native.Nat.{Ordering}
use stss.Bytes.{memcmp}

pub record UserRow : Type 0 where
  pub username : String
  pub password_hash : String
  pub available_tokens : ℤ
  pub registered_from_ip : String

-- `timestamp` and `hash` are blobs.
pub record HistoryRow : Type 0 where
  pub username : String
  pub timestamp : List ℕ
  pub hash : List ℕ

pub record Tables : Type 0 where
  pub users : List UserRow
  pub history : List HistoryRow

-- `sqlx::Error`: a violated constraint, or any other failure, by its text.
pub data SqlError : Type 0 where
  unique_violation check_violation foreign_key_violation : SqlError
  failure : String → SqlError

pub data InternalDataBaseError : Type 0 where
  sql : SqlError → InternalDataBaseError
  hash : String → InternalDataBaseError

pub data AuthenticationError : Type 0 where
  user_not_found : String → AuthenticationError
  invalid_password : AuthenticationError
  internal_data_base : InternalDataBaseError → AuthenticationError

pub data RegistrationError : Type 0 where
  user_already_exists : String → RegistrationError
  internal_data_base : InternalDataBaseError → RegistrationError

pub data GetTokensError : Type 0 where
  user_does_not_exist : GetTokensError
  token_integrity_check_violated : String → ℤ → GetTokensError
  internal_data_base : InternalDataBaseError → GetTokensError

pub data AddTokensError : Type 0 where
  user_does_not_exist : AddTokensError
  token_overflow : AddTokensError
  internal_data_base : InternalDataBaseError → AddTokensError

pub data SubtractTokensError : Type 0 where
  user_does_not_exist : SubtractTokensError
  insufficient_tokens : SubtractTokensError
  internal_data_base : InternalDataBaseError → SubtractTokensError

pub data UserHistoryError : Type 0 where
  user_does_not_exist : UserHistoryError
  timestamp_integrity_violated : String → UserHistoryError
  hash_integrity_violated : String → UserHistoryError
  internal_data_base : InternalDataBaseError → UserHistoryError

pub data AddRecordError : Type 0 where
  user_does_not_exist : AddRecordError
  internal_data_base : InternalDataBaseError → AddRecordError

-- SELECT … FROM users WHERE username = ?
unfoldable pub find_user : String → List UserRow → Option UserRow
find_user name [] = none
find_user name (row ∷ rows) = if str_eq row.username name then some row else find_user name rows

-- INSERT INTO users …
unfoldable pub insert_user : UserRow → Tables → Result SqlError (Unit {0} × Tables)
insert_user row t =
    if ltb_ℤ row.available_tokens (pos 0)
    then err check_violation
    else elim (find_user row.username t.users) [
      | some _ ↦ err unique_violation
      | none ↦ ok (tt, record t { users = t.users ++ row ∷ [] })
    ]

abbrev pub update_row : String → (ℤ → ℤ) → UserRow → UserRow
update_row name f row =
    if str_eq row.username name
    then record row { available_tokens = f row.available_tokens }
    else row

unfoldable pub update_rows : String → (ℤ → ℤ) → List UserRow → List UserRow
update_rows name f [] = []
update_rows name f (row ∷ rows) = update_row name f row ∷ update_rows name f rows

-- CHECK (available_tokens >= 0), on the rows that the statement writes.
unfoldable pub violates_check : String → List UserRow → Bool
violates_check name [] = false
violates_check name (row ∷ rows) =
    if str_eq row.username name && ltb_ℤ row.available_tokens (pos 0)
    then true
    else violates_check name rows

-- UPDATE users SET available_tokens = f(available_tokens) WHERE username = ?
unfoldable pub update_tokens : String → (ℤ → ℤ) → Tables → Result SqlError (Unit {0} × Tables)
update_tokens name f t =
    let rows = update_rows name f t.users in
    if violates_check name rows then err check_violation else ok (tt, record t { users = rows })

abbrev pub is_eq : Ordering → Bool
is_eq Ordering.lt = false
is_eq Ordering.eq = true
is_eq Ordering.gt = false

-- A row with this primary key.
unfoldable pub has_record : String → List ℕ → List HistoryRow → Bool
has_record name ts [] = false
has_record name ts (row ∷ rows) =
    if str_eq row.username name && is_eq (memcmp row.timestamp ts)
    then true
    else has_record name ts rows

-- INSERT INTO history (username, timestamp, hash)
unfoldable pub insert_record : HistoryRow → Tables → Result SqlError (Unit {0} × Tables)
insert_record row t =
    if has_record row.username row.timestamp t.history
    then err unique_violation
    else elim (find_user row.username t.users) [
      | none ↦ err foreign_key_violation
      | some _ ↦ ok (tt, record t { history = t.history ++ row ∷ [] })
    ]

unfoldable pub records_of : String → List HistoryRow → List HistoryRow
records_of name [] = []
records_of name (row ∷ rows) =
    let rest = records_of name rows in if str_eq row.username name then row ∷ rest else rest

-- One row into rows that are in descending order of their timestamps.
unfoldable pub insert_desc : HistoryRow → List HistoryRow → List HistoryRow
insert_desc row [] = row ∷ []
insert_desc row (next ∷ rows) = elim (memcmp row.timestamp next.timestamp) [
  | Ordering.lt ↦ next ∷ insert_desc row rows
  | _ ↦ row ∷ next ∷ rows
]

unfoldable pub sort_desc : List HistoryRow → List HistoryRow
unfolding insert_desc
sort_desc [] = []
sort_desc (row ∷ rows) = insert_desc row (sort_desc rows)

abbrev pub history_limit : ℕ
history_limit = 100

-- SELECT hash, timestamp FROM history WHERE username = ? ORDER BY timestamp DESC LIMIT 100
unfoldable pub select_history : String → Tables → List HistoryRow
select_history name t = take history_limit (sort_desc (records_of name t.history))
