-- ===== src/Database/Safety.antt =====
-- The schema's invariant under every method of server/src/database.rs, one call or many.
use stss.Prelude.{
  ℕ, ◌^◌, ◌<◌, ◌≡◌, ◌≢◌, ◌∙◌, ap, refl, false, none, some, String, ℤ, pos, arith, eq_iff, str_eq,
  List, [], ◌∷◌, ◌++◌, All, All-append, inl, inr, ◌&&◌, ◌||◌, Option-cases,
}
use stss.Bytes.{memcmp}
use stss.Protocol.Timestamps.{length-as_be_bytes, as_be_bytes-IsByte}
use stss.Database.Schema.{Tables, UserRow, HistoryRow, find_user, update_rows, has_record, is_eq}
use stss.Database.Rows.{IsKeyed, InRange, find-update, find-append, IsKeyed-update, IsKeyed-append}
use stss.Database.Tokens.{HasAccounts, Holds}
use stss.Database.Records.{row_of}
use stss.Database.History.{IsRow}
use stss.Database.Invariant.{Change, unchanged, registered, counted, recorded}

-- No primary key of the history stands in two rows.
abbrev pub IsUnique : List HistoryRow → Type 0
IsUnique [] = Unit
IsUnique (row ∷ rows) = (has_record row.username row.timestamp rows ≡ false) × IsUnique rows

abbrev pub IsOwned : List UserRow → HistoryRow → Type 0
IsOwned users row = find_user row.username users ≢ none

-- Usernames are unique, counts fit `i64` and are not negative, every history row is well formed and
-- has an owner, and no user has two rows of one timestamp.
pub record IsValid (t : Tables) : Type 0 where
  pub accounts : HasAccounts t
  pub rows : All IsRow t.history
  pub owned : All (IsOwned t.users) t.history
  pub unique : IsUnique t.history

All-IsOwned :
    (old new : List UserRow) (rows : List HistoryRow)
    → ((name : String) → find_user name old ≢ none → find_user name new ≢ none)
    → All (IsOwned old) rows
    → All (IsOwned new) rows
All-IsOwned old new [] keep h = tt
All-IsOwned old new (row ∷ rows) keep h = (keep row.username h.0, All-IsOwned old new rows keep h.1)

unmatched :
    (name : String) (f : ℤ → ℤ) (rows : List UserRow)
    → find_user name rows ≡ none
    → update_rows name f rows ≡ rows
unfolding find_user update_rows
unmatched name f [] e = refl
unmatched name f (row ∷ rows) e = ground (arith, unmatched name f rows)

InRange-update :
    (name : String) (f : ℤ → ℤ) (rows : List UserRow) (row : UserRow) (c : ℕ)
    → IsKeyed rows
    → All InRange rows
    → find_user name rows ≡ some row
    → f row.available_tokens ≡ pos c
    → c < 2 ^ 63
    → All InRange (update_rows name f rows)
unfolding find_user update_rows
InRange-update name f [] row c keyed h e p small = tt
InRange-update name f (first ∷ rows) row c keyed h e p small = ground (
  arith,
  InRange-update name f rows row c keyed.1 h.1,
  unmatched name f rows,
  eq_iff first.username name,
)

memcmp_symm : (a b : List ℕ) → is_eq (memcmp a b) ≡ is_eq (memcmp b a)
unfolding memcmp
memcmp_symm [] [] = refl
memcmp_symm [] (y ∷ b) = refl
memcmp_symm (x ∷ a) [] = refl
memcmp_symm (x ∷ a) (y ∷ b) = ground (arith, memcmp_symm a b)

has_record-append :
    (name : String) (ts : List ℕ) (rows : List HistoryRow) (new : HistoryRow)
    → has_record name ts (rows ++ new ∷ [])
      ≡ (has_record name ts rows || (str_eq new.username name && is_eq (memcmp new.timestamp ts)))
unfolding has_record
has_record-append name ts [] new = ground arith
has_record-append name ts (row ∷ rows) new = ground (arith, has_record-append name ts rows new)

IsUnique-append :
    (rows : List HistoryRow) (new : HistoryRow)
    → IsUnique rows
    → has_record new.username new.timestamp rows ≡ false
    → IsUnique (rows ++ new ∷ [])
unfolding has_record
IsUnique-append [] new h e = (refl, tt)
IsUnique-append (row ∷ rows) new h e = ground (
  arith,
  IsUnique-append rows new h.1,
  eq_iff row.username new.username,
  eq_iff new.username row.username,
  memcmp_symm row.timestamp new.timestamp,
  has_record-append row.username row.timestamp rows new,
)

account_row :
    (name : String) (t : Tables) (b : ℕ)
    → Holds name t b
    → (row : UserRow) × (find_user name t.users ≡ some row) × (row.available_tokens ≡ pos b)
account_row name t b account = elim (Option-cases (find_user name t.users)) [
  | inl missing ↦ absurd (ground (arith, account.tokens))
  | inr (row, found) ↦ (row, found, ground (arith, account.tokens))
]

-- A change of the tables by one method call keeps the schema's invariant: unique names, counts
-- that are not negative and fit `i64`, well-formed history rows that have an owner, and no two
-- records of a user with one timestamp.
pub Change-IsValid : {t u : Tables} → Change t u → IsValid t → IsValid u
Change-IsValid unchanged v = v
Change-IsValid {t} (registered row free zero) v = record {
  accounts = record {
    keyed = IsKeyed-append t.users row v.accounts.keyed free;
    in_range = All-append InRange t.users _ v.accounts.in_range (ground arith);
  };
  rows = v.rows;
  owned =
      All-IsOwned t.users _ t.history (λ name known. ground (arith, find-append name t.users row))
        v.owned;
  unique = v.unique;
}
Change-IsValid {t} (counted name f b c account p small) v =
    let (row, found, count) = account_row name t b account in
    record {
      accounts = record {
        keyed = IsKeyed-update name f t.users v.accounts.keyed;
        in_range =
            InRange-update name f t.users row c v.accounts.keyed v.accounts.in_range found
              (ap f count ∙ p) small;
      };
      rows = v.rows;
      owned =
          All-IsOwned t.users _ t.history (λ j known. ground (arith, find-update name j f t.users))
            v.owned;
      unique = v.unique;
    }
Change-IsValid {t} (recorded name ts sign size known fresh) v = record {
  accounts = record { keyed = v.accounts.keyed; in_range = v.accounts.in_range };
  rows =
      All-append IsRow t.history _ v.rows
        ((length-as_be_bytes ts, as_be_bytes-IsByte ts, size), tt);
  owned = All-append (IsOwned t.users) t.history _ v.owned (known, tt);
  unique = IsUnique-append t.history (row_of name ts sign) v.unique fresh;
}

-- Any number of method calls.
pub data Reach (t : Tables) : Tables → Type 0 where
  here : Reach t t
  next : {u w : Tables} → Reach t u → Change u w → Reach t w

-- `initialize_db`: both tables are empty.
abbrev pub empty : Tables
empty = record { users = []; history = [] }

pub Reach-IsValid : {t : Tables} → Reach empty t → IsValid t
Reach-IsValid here = record {
  accounts = record { keyed = tt; in_range = tt };
  rows = tt;
  owned = tt;
  unique = tt;
}
Reach-IsValid (next r c) = Change-IsValid c (Reach-IsValid r)
