-- ===== src/Database.antt =====
-- `ServerDataBase` of server/src/database.rs: every method over the tables. The crate `argon2` and
-- the crate `hex` are not part of the repository: hashing a password, parsing and verifying a
-- stored hash, and printing bytes in hexadecimal are parameters. The proofs are in the modules
-- below.
pub mod Schema
pub mod Monad
pub mod Rows
pub mod Tokens
pub mod Accounts
pub mod Records
pub mod History
pub mod Recall
pub mod Invariant
pub mod Safety
pub mod Open
use stss.Prelude.{
  ℕ, ◌+◌, ◌-◌, ◌^◌, ◌≡◌, Bool, true, ◌&&◌, Option, none, some, List, [], ◌∷◌, String, Result, ok,
  err, map_err, ℤ, pos, negsuc, ◌+ℤ◌, ◌-ℤ◌, ltb, ltb_ℤ, leb_ℤ, i64_max, i64_min, ◌==◌, length,
  if◌then◌else◌,
}
use stss.Protocol.{RsaSignature, Timestamp, HistoryRecord}
use stss.Protocol.Timestamps.{as_be_bytes, from_be}
use stss.Protocol.Signing.{signature_try_from}
use stss.Database.Schema.{
  UserRow, HistoryRow, Tables, SqlError, unique_violation, InternalDataBaseError, sql, hash,
  AuthenticationError, user_not_found, invalid_password, RegistrationError, user_already_exists,
  GetTokensError, token_integrity_check_violated, AddTokensError, token_overflow,
  SubtractTokensError, insufficient_tokens, UserHistoryError, timestamp_integrity_violated,
  hash_integrity_violated, AddRecordError, find_user, insert_user, update_tokens, insert_record,
  select_history,
}
use stss.Database.Monad.{
  Sqlite, Db, pure, fail, lift, ◌>>=◌, ◌>>◌, statement, transaction, read_transaction,
}

-- `Argon2` with its default parameters; a salt is the text that `SaltString::generate` returned, and
-- `verify_password` tells whether the crate's function of that name returns `Ok`.
pub record PasswordHasher : Type 1 where
  pub PasswordHash : Type 0
  pub hash_password : String → String → Result String String
  pub parse : String → Result String PasswordHash
  pub verify_password : String → PasswordHash → Bool

-- What the crate documents: a hash that it made can be parsed, and verifies its own password.
pub record IsPasswordHasher (h : PasswordHasher) : Type 0 where
  pub verify-hash :
      (password salt stored : String)
      → h.hash_password password salt ≡ ok stored
      → (p : h.PasswordHash) × (h.parse stored ≡ ok p) × (h.verify_password password p ≡ true)

-- `timestamp_as_sql_database_format`
unfoldable pub timestamp_as_sql_database_format : Timestamp → List ℕ
timestamp_as_sql_database_format ts = as_be_bytes ts

-- `u64` into `i64`, checked.
unfoldable pub try_into_i64 : ℕ → Option ℤ
try_into_i64 n = if ltb n (2 ^ 63) then some (pos n) else none

abbrev pub in_i64 : ℤ → Option ℤ
in_i64 z = if leb_ℤ i64_min z && leb_ℤ z i64_max then some z else none

-- `i64::checked_add` and `i64::checked_sub`
unfoldable pub checked_add : ℤ → ℤ → Option ℤ
checked_add a b = in_i64 (a +ℤ b)

unfoldable pub checked_sub : ℤ → ℤ → Option ℤ
checked_sub a b = in_i64 (a -ℤ b)

-- `i64 as u64`
unfoldable pub as_u64 : ℤ → ℕ
as_u64 (pos n) = n
as_u64 (negsuc n) = 2 ^ 64 - n - 1

module _ (h : PasswordHasher) where
  open h use {PasswordHash, hash_password, parse, verify_password}

  abbrev pub check_password :
      String → Result String PasswordHash → Result AuthenticationError (Unit {0})
  check_password plain_password (err e) = err (AuthenticationError.internal_data_base (hash e))
  check_password plain_password (ok parsed) =
      if verify_password plain_password parsed then ok tt else err invalid_password

  abbrev pub check_row : String → String → Option UserRow → Result AuthenticationError (Unit {0})
  check_row username plain_password none = err (user_not_found username)
  check_row username plain_password (some row) =
      check_password plain_password (parse row.password_hash)

  unfoldable pub verify_user_password : String → String → Db AuthenticationError (Unit {0})
  verify_user_password username plain_password = do
    row ←
        statement (λ e. AuthenticationError.internal_data_base (sql e))
          (λ t. ok (find_user username t.users, t))
    lift (check_row username plain_password row)

  abbrev pub registration_error : String → SqlError → RegistrationError
  registration_error username unique_violation = user_already_exists username
  registration_error username e = RegistrationError.internal_data_base (sql e)

  -- The INSERT of `try_register_user`, once the password is hashed.
  unfoldable pub insert_account : String → String → String → Db RegistrationError (Unit {0})
  insert_account username ip stored = statement (registration_error username) (
      insert_user (record {
        username = username;
        password_hash = stored;
        available_tokens = pos 0;
        registered_from_ip = ip;
      }))

  -- `salt` is what the operating system's generator gave, `ip` the text of the client's address.
  unfoldable pub try_register_user :
      String → String → String → String → Db RegistrationError (Unit {0})
  try_register_user username plain_password ip salt = do
    stored ← lift (
        map_err (λ e. RegistrationError.internal_data_base (hash e))
          (hash_password plain_password salt))
    insert_account username ip stored

-- SELECT available_tokens FROM users WHERE username = $1
abbrev pub select_tokens : String → Tables → Option ℤ
select_tokens username t = elim (find_user username t.users) [
  | none ↦ none
  | some row ↦ some row.available_tokens
]

abbrev pub tokens_or_fail : String → Option ℤ → Result GetTokensError ℕ
tokens_or_fail username none = err GetTokensError.user_does_not_exist
tokens_or_fail username (some tokens) =
    if ltb_ℤ tokens (pos 0)
    then err (token_integrity_check_violated username tokens)
    else ok (as_u64 tokens)

unfoldable pub get_user_tokens : String → Db GetTokensError ℕ
unfolding as_u64
get_user_tokens username = do
  found ←
      statement (λ e. GetTokensError.internal_data_base (sql e))
        (λ t. ok (select_tokens username t, t))
  lift (tokens_or_fail username found)

abbrev pub or_fail : {E A : Type 0} → Option A → E → Db E A
or_fail none e = fail e
or_fail (some a) e = pure a

abbrev pub add_sql_error : SqlError → AddTokensError
add_sql_error e = AddTokensError.internal_data_base (sql e)

unfoldable pub add_user_tokens : String → ℕ → Db AddTokensError ℕ
unfolding try_into_i64 checked_add as_u64
add_user_tokens username amount_u64 = do
  amount ← or_fail (try_into_i64 amount_u64) token_overflow
  transaction add_sql_error do
    current ← statement add_sql_error (λ t. ok (select_tokens username t, t))
    tokens ← or_fail current AddTokensError.user_does_not_exist
    resulting ← or_fail (checked_add tokens amount) token_overflow
    statement add_sql_error (update_tokens username (λ v. v +ℤ amount))
    pure (as_u64 resulting)

abbrev pub subtract_sql_error : SqlError → SubtractTokensError
subtract_sql_error e = SubtractTokensError.internal_data_base (sql e)

unfoldable pub subtract_user_tokens : String → ℕ → Db SubtractTokensError ℕ
unfolding try_into_i64 checked_sub as_u64
subtract_user_tokens username amount_u64 = do
  amount ← or_fail (try_into_i64 amount_u64) insufficient_tokens
  transaction subtract_sql_error do
    current ← statement subtract_sql_error (λ t. ok (select_tokens username t, t))
    tokens ← or_fail current SubtractTokensError.user_does_not_exist
    resulting ← or_fail (checked_sub tokens amount) insufficient_tokens
    (if ltb_ℤ resulting (pos 0) then fail insufficient_tokens else pure tt)
    statement subtract_sql_error (update_tokens username (λ v. v -ℤ amount))
    pure (as_u64 resulting)

abbrev pub record_sql_error : SqlError → AddRecordError
record_sql_error e = AddRecordError.internal_data_base (sql e)

unfoldable pub add_user_record : String → Timestamp → RsaSignature → Db AddRecordError (Unit {0})
unfolding timestamp_as_sql_database_format
add_user_record username timestamp sign = transaction record_sql_error do
  user ← statement record_sql_error (λ t. ok (find_user username t.users, t))
  or_fail user AddRecordError.user_does_not_exist
  statement record_sql_error (
      insert_record (record {
        username = username;
        timestamp = timestamp_as_sql_database_format timestamp;
        hash = sign.bytes;
      }))

abbrev pub history_sql_error : SqlError → UserHistoryError
history_sql_error e = UserHistoryError.internal_data_base (sql e)

-- `hex::encode`
module _ (hex_encode : List ℕ → String) where
  -- The conversions of one row; the timestamp is looked at first.
  unfoldable pub parse_row : HistoryRow → Result UserHistoryError HistoryRecord
  parse_row row =
      if length row.timestamp == 16
      then elim (signature_try_from row.hash) [
        | ok sign ↦ ok (record { sign = sign; timestamp = from_be row.timestamp })
        | err _ ↦ err (hash_integrity_violated (hex_encode row.hash))
      ]
      else err (timestamp_integrity_violated (hex_encode row.timestamp))

  -- Each step of the row stream, the last one too, may fail.
  unfoldable pub collect_rows : List HistoryRow → Db UserHistoryError (List HistoryRecord)
  collect_rows [] = do statement history_sql_error (λ t. ok (tt, t)); pure []
  collect_rows (row ∷ rows) = do
    statement history_sql_error (λ t. ok (tt, t))
    first ← lift (parse_row row)
    rest ← collect_rows rows
    pure (first ∷ rest)

  unfoldable pub get_user_history : String → Db UserHistoryError (List HistoryRecord)
  unfolding collect_rows
  get_user_history username = read_transaction history_sql_error do
    user ← statement history_sql_error (λ t. ok (find_user username t.users, t))
    or_fail user UserHistoryError.user_does_not_exist
    rows ← (λ s. (ok (select_history username s.tables), s))
    collect_rows rows
