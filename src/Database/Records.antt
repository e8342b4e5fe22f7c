-- ===== src/Database/Records.antt =====
-- The signature history: `add_user_record` and `get_user_history` of server/src/database.rs.
use stss.Prelude.{◌≡◌, ◌≢◌, ◌⊎◌, true, false, none, String, Result, ok, err, arith, [], ◌∷◌, ◌++◌}
use stss.Protocol.{Timestamp, RsaSignature}
use stss.Protocol.Timestamps.{as_be_bytes}
use stss.Database.{add_user_record}
use stss.Database.Schema.{
  HistoryRow, sql, failure, unique_violation, AddRecordError, find_user, has_record, insert_record,
}
use stss.Database.Monad.{Sqlite, FailedWith, faults_in_order}

-- The row that `add_user_record` writes.
abbrev pub row_of : String → Timestamp → RsaSignature → HistoryRow
row_of name ts sign = record { username = name; timestamp = as_be_bytes ts; hash = sign.bytes }

-- What an attempt to add a record has done: the record of an existing user, under a timestamp that
-- the user had no record of, stands in the history; or nothing has changed.
abbrev pub RecordPost :
    String → Timestamp → RsaSignature → Sqlite → Result AddRecordError (Unit {0}) × Sqlite → Type 0
RecordPost name ts sign s (ok _, s') =
    (s'.tables.history ≡ s.tables.history ++ row_of name ts sign ∷ [])
    × (s'.tables.users ≡ s.tables.users)
    × (find_user name s.tables.users ≢ none)
    × (has_record name (as_be_bytes ts) s.tables.history ≡ false)
RecordPost name ts sign s (err AddRecordError.user_does_not_exist, s') =
    (s'.tables ≡ s.tables) × (find_user name s.tables.users ≡ none)
RecordPost name ts sign s (err (AddRecordError.internal_data_base e), s') =
    (s'.tables ≡ s.tables)
    × (((e ≡ sql unique_violation) × (has_record name (as_be_bytes ts) s.tables.history ≡ true))
        ⊎ ((text : String) × (e ≡ sql (failure text)) × FailedWith text s s'))

-- What `add_user_record` has done. Success: the user exists, had no record of this timestamp, and the
-- new row is the last of the history, while the accounts are as before. Every error leaves the tables
-- as they were: a missing user only if there is no account, a uniqueness violation only if the user
-- has a record of this timestamp, any other database error only with the text of a
-- statement that has failed.
pub add_user_record-RecordPost :
    (name : String) (ts : Timestamp) (sign : RsaSignature) (s : Sqlite)
    → RecordPost name ts sign s (add_user_record name ts sign s)
unfolding add_user_record insert_record
add_user_record-RecordPost name ts sign s = ground (arith, faults_in_order 4 s.faults)
