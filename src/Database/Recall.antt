-- ===== src/Database/Recall.antt =====
-- A record that was added is returned by the next history request: `add_user_record` and
-- `get_user_history` of server/src/database.rs together.
use Prim.Native.Nat.{Ordering}
use stss.Prelude.{
  ℕ, ◌≡◌, ◌≢◌, refl, none, String, Result, ok, err, arith, eq_iff, List, [], ◌∷◌, ◌++◌, map, All,
  All-append, take,
}
use stss.Bytes.{memcmp}
use stss.Protocol.{Timestamp, IsTimestamp, RsaSignature, IsRsaSignature}
use stss.Protocol.Timestamps.{from_be-as_be_bytes, length-as_be_bytes, as_be_bytes-IsByte}
use stss.Database.{add_user_record, get_user_history, collect_rows}
use stss.Database.Schema.{
  Tables, HistoryRow, AddRecordError, find_user, records_of, sort_desc, select_history,
}
use stss.Database.Monad.{Sqlite, next_fault}
use stss.Database.Records.{row_of, RecordPost, add_user_record-RecordPost}
use stss.Database.History.{IsRow, record_of, parse_row_ok, select_history-IsRow}

-- `row` comes after every row of the list.
abbrev pub IsNewer : HistoryRow → List HistoryRow → Type 0
IsNewer row = All (λ r. memcmp r.timestamp row.timestamp ≡ Ordering.lt)

records_of-append :
    (name : String) (rows : List HistoryRow) (row : HistoryRow)
    → row.username ≡ name
    → records_of name (rows ++ row ∷ []) ≡ records_of name rows ++ row ∷ []
unfolding records_of
records_of-append name [] row e = ground (arith, eq_iff row.username name)
records_of-append name (r ∷ rows) row e = ground (arith, records_of-append name rows row e)

sort_desc-append :
    (rows : List HistoryRow) (row : HistoryRow)
    → IsNewer row rows
    → sort_desc (rows ++ row ∷ []) ≡ row ∷ sort_desc rows
unfolding sort_desc
sort_desc-append [] row h = refl
sort_desc-append (r ∷ rows) row h = ground (arith, sort_desc-append rows row h.1, h.0)

-- A database whose statements no longer fail.
abbrev pub quiet : Tables → Sqlite
quiet t = record { tables = t; faults = [] }

row_of-IsRow :
    (name : String) (ts : Timestamp) (sign : RsaSignature)
    → IsRsaSignature sign
    → IsRow (row_of name ts sign)
row_of-IsRow name ts sign size = (length-as_be_bytes ts, as_be_bytes-IsByte ts, size)

record_of-row_of :
    (name : String) (ts : Timestamp) (sign : RsaSignature)
    → IsTimestamp ts
    → record_of (row_of name ts sign) ≡ record { sign = sign; timestamp = ts }
record_of-row_of name ts sign h =
    λ i. record { sign = sign; timestamp = from_be-as_be_bytes ts h i }

added_record :
    (name : String) (ts : Timestamp) (sign : RsaSignature) (s : Sqlite)
    (r : Result AddRecordError (Unit {0}) × Sqlite)
    → RecordPost name ts sign s r
    → r.0 ≡ ok tt
    → (r.1.tables.history ≡ s.tables.history ++ row_of name ts sign ∷ [])
      × (find_user name r.1.tables.users ≢ none)
added_record name ts sign s (ok _, s') post e = (post.0, rw post.1 post.2)
added_record name ts sign s (err _, s') post e = cc

select_history-append :
    (name : String) (ts : Timestamp) (sign : RsaSignature) (t u : Tables)
    → u.history ≡ t.history ++ row_of name ts sign ∷ []
    → IsNewer (row_of name ts sign) (records_of name t.history)
    → select_history name u ≡ row_of name ts sign ∷ take 99 (sort_desc (records_of name t.history))
unfolding select_history
select_history-append name ts sign t u e newer = rw (
  e,
  records_of-append name t.history (row_of name ts sign) refl,
  sort_desc-append (records_of name t.history) (row_of name ts sign) newer,
)

module _ (hex_encode : List ℕ → String) where
  collect_rows-quiet :
      (rows : List HistoryRow) (t : Tables)
      → All IsRow rows
      → collect_rows hex_encode rows (quiet t) ≡ (ok (map record_of rows), quiet t)
  unfolding collect_rows next_fault
  collect_rows-quiet [] t h = refl
  collect_rows-quiet (row ∷ rows) t h =
      ground (arith, parse_row_ok hex_encode row h.0, collect_rows-quiet rows t h.1)

  -- Without failing statements, on rows that the server wrote, a known user gets the first hundred of
  -- the rows in descending order of their timestamps.
  pub get_user_history-quiet :
      (name : String) (t : Tables)
      → All IsRow t.history
      → find_user name t.users ≢ none
      → get_user_history hex_encode name (quiet t)
        ≡ (ok (map record_of (select_history name t)), quiet t)
  unfolding get_user_history next_fault
  get_user_history-quiet name t h known =
      ground (arith, collect_rows-quiet (select_history name t) t (select_history-IsRow name t h))

  -- On a history whose rows are well formed, a 256-byte signature that was added under a 128-bit
  -- timestamp later than all others of the user comes first in the history, before the newest 99
  -- of those that were there, while no statement of the query fails.
  pub history-add_record :
      (name : String) (ts : Timestamp) (sign : RsaSignature) (s : Sqlite)
      → All IsRow s.tables.history
      → IsTimestamp ts
      → IsRsaSignature sign
      → IsNewer (row_of name ts sign) (records_of name s.tables.history)
      → (add_user_record name ts sign s).0 ≡ ok tt
      → (get_user_history hex_encode name (quiet (add_user_record name ts sign s).1.tables)).0
        ≡ ok (
            record { sign = sign; timestamp = ts }
            ∷ map record_of (take 99 (sort_desc (records_of name s.tables.history))))
  history-add_record name ts sign s h in_range size newer added =
      let t = (add_user_record name ts sign s).1.tables in
      let (grown, known) =
        added_record name ts sign s _ (add_user_record-RecordPost name ts sign s) added in
      let rows : All IsRow t.history =
        rw grown (All-append IsRow s.tables.history _ h (row_of-IsRow name ts sign size, tt)) in
      let selected = select_history-append name ts sign s.tables t grown newer in
      let answer = get_user_history-quiet name t rows known in
      let first = record_of-row_of name ts sign in_range in cc (answer, selected, first)
