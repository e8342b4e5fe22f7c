-- ===== src/Database/History.antt =====
-- What `get_user_history` of server/src/database.rs returns: the newest hundred records of the user,
-- newest first.
use Prim.Native.Nat.{compare}
use mathlib.Core.Path.{subst}
use mathlib.Core.List.{Perm}
use mathlib.Core.List.Perm
use stss.Prelude.{
  ℕ, zero, suc, ◌≤◌, ◌≡◌, ◌≢◌, ◌⊎◌, sym, none, String, Result, ok, err, arith, List, [], ◌∷◌, map,
  length, All, take, length-take, length-map, inl, inr,
}
use stss.Bytes.{IsByte, memcmp}
use stss.Bytes.Order.{memcmp-eq-compare}
use stss.Protocol.{HistoryRecord}
use stss.Protocol.Timestamps.{from_be}
use stss.Protocol.Signing.{signature_try_from}
use stss.Database.{get_user_history, collect_rows, parse_row}
use stss.Database.Schema.{
  Tables, HistoryRow, sql, failure, UserHistoryError, history_limit, timestamp_integrity_violated,
  hash_integrity_violated, find_user, records_of, insert_desc, sort_desc, select_history,
}
use stss.Database.Monad.{Sqlite, next_fault, FailedWith, faults_in_order}

-- A row as `add_user_record` writes it: a 16-byte timestamp and a 256-byte signature.
abbrev pub IsRow : HistoryRow → Type 0
IsRow row = (length row.timestamp ≡ 16) × All IsByte row.timestamp × (length row.hash ≡ 256)

abbrev pub record_of : HistoryRow → HistoryRecord
record_of row = record { sign = record { bytes = row.hash }; timestamp = from_be row.timestamp }

-- Each timestamp is at most the one before it.
abbrev pub IsNewestFirst : List HistoryRecord → Type 0
IsNewestFirst [] = Unit
IsNewestFirst (r ∷ []) = Unit
IsNewestFirst (r ∷ q ∷ rest) = (q.timestamp.nanos ≤ r.timestamp.nanos) × IsNewestFirst (q ∷ rest)

insert_desc-cases :
    (row next : HistoryRow) (rows : List HistoryRow)
    → (insert_desc row (next ∷ rows) ≡ next ∷ insert_desc row rows)
      ⊎ (insert_desc row (next ∷ rows) ≡ row ∷ next ∷ rows)
unfolding insert_desc
insert_desc-cases row next rows = ground arith

insert_desc-perm :
    (row : HistoryRow) (rows : List HistoryRow) → Perm (insert_desc row rows) (row ∷ rows)
insert_desc-perm row [] = unfold insert_desc in Perm.refl (row ∷ [])
insert_desc-perm row (next ∷ rows) = elim (insert_desc-cases row next rows) [
  | inl below ↦
      rw below (Perm.trans (Perm.cons next (insert_desc-perm row rows)) (Perm.swap row next rows))
  | inr above ↦ rw above (Perm.refl (row ∷ next ∷ rows))
]

-- Sorting keeps every row as often as it was there.
pub sort_desc-perm : (rows : List HistoryRow) → Perm (sort_desc rows) rows
unfolding sort_desc
sort_desc-perm [] = Perm.refl []
sort_desc-perm (row ∷ rows) =
    Perm.trans (insert_desc-perm row (sort_desc rows)) (Perm.cons row (sort_desc-perm rows))

All-records_of :
    (name : String) (rows : List HistoryRow) → All IsRow rows → All IsRow (records_of name rows)
unfolding records_of
All-records_of name [] h = tt
All-records_of name (row ∷ rows) h = ground (arith, All-records_of name rows h.1)

All-insert_desc :
    (row : HistoryRow) (rows : List HistoryRow)
    → IsRow row
    → All IsRow rows
    → All IsRow (insert_desc row rows)
unfolding insert_desc
All-insert_desc row [] hr h = (hr, tt)
All-insert_desc row (next ∷ rows) hr h = ground (arith, All-insert_desc row rows hr h.1)

All-sort_desc : (rows : List HistoryRow) → All IsRow rows → All IsRow (sort_desc rows)
unfolding sort_desc
All-sort_desc [] h = tt
All-sort_desc (row ∷ rows) h = All-insert_desc row (sort_desc rows) h.0 (All-sort_desc rows h.1)

row_order :
    (r q : HistoryRow)
    → IsRow r
    → IsRow q
    → memcmp r.timestamp q.timestamp
      ≡ compare (from_be r.timestamp).nanos (from_be q.timestamp).nanos
unfolding from_be
row_order r q hr hq = memcmp-eq-compare 16 r.timestamp q.timestamp hr.0 hq.0 hr.1 hq.1

insert_desc-newest :
    (row : HistoryRow) (rows : List HistoryRow)
    → All IsRow (row ∷ rows)
    → IsNewestFirst (map record_of rows)
    → IsNewestFirst (map record_of (insert_desc row rows))
unfolding insert_desc
insert_desc-newest row [] h s = tt
insert_desc-newest row (next ∷ []) h s = ground (arith, row_order row next h.0 h.1.0)
insert_desc-newest row (next ∷ last ∷ rows) h s = ground (
  arith,
  row_order row next h.0 h.1.0,
  row_order row last h.0 h.1.1.0,
  insert_desc-newest row (last ∷ rows) (h.0, h.1.1),
)

sort_desc-newest :
    (rows : List HistoryRow) → All IsRow rows → IsNewestFirst (map record_of (sort_desc rows))
unfolding sort_desc
sort_desc-newest [] h = tt
sort_desc-newest (row ∷ rows) h =
    insert_desc-newest row (sort_desc rows) (h.0, All-sort_desc rows h.1)
      (sort_desc-newest rows h.1)

All-take {ℓ κ} : {A : Type ℓ} (P : A → Type κ) (n : ℕ) (xs : List A) → All P xs → All P (take n xs)
All-take P zero xs h = tt
All-take P (suc n) [] h = tt
All-take P (suc n) (x ∷ xs) h = (h.0, All-take P n xs h.1)

take-newest :
    (n : ℕ) (rows : List HistoryRow)
    → IsNewestFirst (map record_of rows)
    → IsNewestFirst (map record_of (take n rows))
take-newest zero rows h = tt
take-newest (suc n) [] h = tt
take-newest (suc zero) (r ∷ rows) h = tt
take-newest (suc (suc n)) (r ∷ []) h = tt
take-newest (suc (suc n)) (r ∷ q ∷ rows) h = (h.0, take-newest (suc n) (q ∷ rows) h.1)

pub select_history-IsRow :
    (name : String) (t : Tables) → All IsRow t.history → All IsRow (select_history name t)
unfolding select_history
select_history-IsRow name t h =
    All-take IsRow history_limit _ (All-sort_desc _ (All-records_of name t.history h))

module _ (hex_encode : List ℕ → String) where
  pub parse_row_ok : (row : HistoryRow) → IsRow row → parse_row hex_encode row ≡ ok (record_of row)
  unfolding parse_row signature_try_from
  parse_row_ok row h = ground arith

  -- The loop ends with every row converted, or with the failure of a statement.
  abbrev CollectPost :
      List HistoryRow → Sqlite → Result UserHistoryError (List HistoryRecord) × Sqlite → Type 0
  CollectPost rows s (ok records, s') = (s'.tables ≡ s.tables) × (records ≡ map record_of rows)
  CollectPost rows s (err e, s') =
      (s'.tables ≡ s.tables)
      × ((text : String) × (e ≡ UserHistoryError.internal_data_base (sql (failure text)))
          × FailedWith text s s')

  collect_rows-CollectPost :
      (rows : List HistoryRow) (s : Sqlite)
      → All IsRow rows
      → CollectPost rows s (collect_rows hex_encode rows s)
  unfolding collect_rows
  collect_rows-CollectPost [] s h = ground (arith, faults_in_order 1 s.faults)
  collect_rows-CollectPost (row ∷ rows) s h = ground (
    arith,
    faults_in_order 1 s.faults,
    parse_row_ok row h.0,
    collect_rows-CollectPost rows (record { tables = s.tables; faults = (next_fault s.faults).1 })
        h.1,
  )

  -- What a history request has done. It never changes the tables and, on rows that the server wrote,
  -- never reports a broken row.
  abbrev pub HistoryPost :
      String → Sqlite → Result UserHistoryError (List HistoryRecord) × Sqlite → Type 0
  HistoryPost name s (ok records, s') =
      (s'.tables ≡ s.tables)
      × (find_user name s.tables.users ≢ none)
      × (records ≡ map record_of (select_history name s.tables))
  HistoryPost name s (err UserHistoryError.user_does_not_exist, s') =
      (s'.tables ≡ s.tables) × (find_user name s.tables.users ≡ none)
  HistoryPost name s (err (timestamp_integrity_violated _), s') = ⊥
  HistoryPost name s (err (hash_integrity_violated _), s') = ⊥
  HistoryPost name s (err (UserHistoryError.internal_data_base e), s') =
      (s'.tables ≡ s.tables) × ((text : String) × (e ≡ sql (failure text)) × FailedWith text s s')

  -- What `get_user_history` has done, on a history whose rows are well formed: the tables are as before; a
  -- list of records is that of the selected rows, one for each and in their order, of a user who exists;
  -- a missing user has no account; no row is reported as broken; any other error is that of a failed
  -- statement.
  pub get_user_history-HistoryPost :
      (name : String) (s : Sqlite)
      → All IsRow s.tables.history
      → HistoryPost name s (get_user_history hex_encode name s)
  unfolding get_user_history
  get_user_history-HistoryPost name s h = ground (
    arith,
    faults_in_order 2 s.faults,
    collect_rows-CollectPost (select_history name s.tables)
        (record { tables = s.tables; faults = (next_fault (next_fault s.faults).1).1 })
        (select_history-IsRow name s.tables h),
  )

  history_shape :
      (name : String) (s : Sqlite) (r : Result UserHistoryError (List HistoryRecord) × Sqlite)
      (records : List HistoryRecord)
      → All IsRow s.tables.history
      → HistoryPost name s r
      → r.0 ≡ ok records
      → (length records ≤ history_limit) × IsNewestFirst records
  unfolding select_history
  history_shape name s (ok found, s') records h post e =
      let same : records ≡ map record_of (select_history name s.tables) = cc (post.2) in
      subst (λ l. (length l ≤ history_limit) × IsNewestFirst l) (sym same)
        (
          omega (
            arith,
            length-map (select_history name s.tables) record_of,
            length-take history_limit (sort_desc (records_of name s.tables.history)),
          ),
          take-newest history_limit _ (sort_desc-newest _ (All-records_of name s.tables.history h)),
        )
  history_shape name s (err _, s') records h post e = cc

  -- On a history whose rows are well formed, a history that is returned has at most 100 records,
  -- each no newer than the one before it.
  pub get_user_history-IsNewestFirst :
      (name : String) (s : Sqlite) (records : List HistoryRecord)
      → All IsRow s.tables.history
      → (get_user_history hex_encode name s).0 ≡ ok records
      → (length records ≤ history_limit) × IsNewestFirst records
  get_user_history-IsNewestFirst name s records h e =
      history_shape name s (get_user_history hex_encode name s) records h
        (get_user_history-HistoryPost name s h) e
