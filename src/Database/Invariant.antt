-- ===== src/Database/Invariant.antt =====
-- What the methods of server/src/database.rs may do to the tables, as a step relation, and the
-- invariant of the schema that every step keeps.
use native.Mathlib.Decide.{dec_le, dec_lt}
use stss.Prelude.{
  ℕ, ◌+◌, ◌-◌, ◌^◌, ◌<◌, ◌≡◌, ◌≢◌, refl, false, Option, none, some, String, ℤ, pos, pos-add,
  pos-sub, pos-sub_short, ◌+ℤ◌, ◌-ℤ◌, arith, [], ◌∷◌, ◌++◌, Result-cases, Option-cases, Bool-cases,
  inl, inr,
}
use stss.Protocol.{Timestamp, RsaSignature, IsRsaSignature}
use stss.Database.{
  PasswordHasher, try_register_user, insert_account, add_user_tokens, subtract_user_tokens,
  add_user_record,
}
use stss.Database.Schema.{Tables, UserRow, find_user, insert_user, has_record, insert_record}
use stss.Database.Monad.{Sqlite}
use stss.Database.Tokens.{HasAccounts, Holds, Account, Account-of, updated, update_tokens_ok}
use stss.Database.Accounts.{new_row}
use stss.Database.Records.{row_of}

-- One method call, as the tables see it.
pub data Change (t : Tables) : Tables → Type 0 where
  unchanged : Change t t
  registered :
      (row : UserRow)
      → find_user row.username t.users ≡ none
      → row.available_tokens ≡ pos 0
      → Change t (record t { users = t.users ++ row ∷ [] })
  counted :
      (name : String) (f : ℤ → ℤ) (b c : ℕ)
      → Holds name t b
      → f (pos b) ≡ pos c
      → c < 2 ^ 63
      → Change t (updated name f t)
  recorded :
      (name : String) (ts : Timestamp) (sign : RsaSignature)
      → IsRsaSignature sign
      → find_user name t.users ≢ none
      → has_record name (row_of name ts sign).timestamp t.history ≡ false
      → Change t (record t { history = t.history ++ row_of name ts sign ∷ [] })

same : (t : Tables) → Change t t
same t = unchanged

below : {name : String} {t : Tables} {b : ℕ} → Holds name t b → (n : ℕ) → b - n < 2 ^ 63
below account n = omega (arith, account.bound)

module _ (h : PasswordHasher) where
  insert_account-Change :
      (name ip stored : String) (s : Sqlite)
      → Change s.tables (insert_account h name ip stored s).1.tables
  unfolding insert_account insert_user
  insert_account-Change name ip stored s = elim (Option-cases (find_user name s.tables.users)) [
    | inl free ↦
        let change : Change s.tables
            (record s.tables { users = s.tables.users ++ new_row h name stored ip ∷ [] }) =
          registered (new_row h name stored ip) free refl in
        ground (arith, change, same s.tables)
    | inr (row, taken) ↦ ground (arith, same s.tables)
  ]

  pub try_register_user-Change :
      (name password ip salt : String) (s : Sqlite)
      → Change s.tables (try_register_user h name password ip salt s).1.tables
  unfolding try_register_user
  try_register_user-Change name password ip salt s =
      elim (Result-cases (h.hash_password password salt)) [
        | inl (stored, p) ↦ rw p (insert_account-Change name ip stored s)
        | inr (e, p) ↦ rw p unchanged
      ]

add_with_account :
    (name : String) (n : ℕ) (s : Sqlite) (a : Option ℕ)
    → HasAccounts s.tables
    → Account name s.tables a
    → Change s.tables (add_user_tokens name n s).1.tables
unfolding add_user_tokens
add_with_account name n s none h missing = ground (arith, same s.tables)
add_with_account name n s (some b) h account = elim (dec_lt (b + n) (2 ^ 63)) [
  | yes fits ↦
      let change : Change s.tables (updated name (λ v. v +ℤ pos n) s.tables) =
        counted name (λ v. v +ℤ pos n) b (b + n) account (pos-add b n) fits in
      ground (
        arith,
        account.tokens,
        account.bound,
        pos-add b n,
        change,
        same s.tables,
        update_tokens_ok name (λ v. v +ℤ pos n) s.tables h.keyed account.tokens (pos-add b n),
      )
  | no over ↦ ground (arith, account.tokens, account.bound, pos-add b n, same s.tables)
]

pub add_user_tokens-Change :
    (name : String) (n : ℕ) (s : Sqlite)
    → HasAccounts s.tables
    → Change s.tables (add_user_tokens name n s).1.tables
add_user_tokens-Change name n s h =
    let (a, account) = Account-of name s.tables h in add_with_account name n s a h account

subtract_with_account :
    (name : String) (n : ℕ) (s : Sqlite) (a : Option ℕ)
    → HasAccounts s.tables
    → Account name s.tables a
    → Change s.tables (subtract_user_tokens name n s).1.tables
unfolding subtract_user_tokens
subtract_with_account name n s none h missing = ground (arith, same s.tables)
subtract_with_account name n s (some b) h account = elim (dec_le n b) [
  | yes enough ↦
      let change : Change s.tables (updated name (λ v. v -ℤ pos n) s.tables) =
        counted name (λ v. v -ℤ pos n) b (b - n) account (pos-sub b n enough) (below account n) in
      ground (
        arith,
        account.tokens,
        account.bound,
        pos-sub b n enough,
        change,
        same s.tables,
        update_tokens_ok name (λ v. v -ℤ pos n) s.tables h.keyed account.tokens
            (pos-sub b n enough),
      )
  | no short ↦
      ground (arith, account.tokens, account.bound, pos-sub_short b n (omega arith), same s.tables)
]

pub subtract_user_tokens-Change :
    (name : String) (n : ℕ) (s : Sqlite)
    → HasAccounts s.tables
    → Change s.tables (subtract_user_tokens name n s).1.tables
subtract_user_tokens-Change name n s h =
    let (a, account) = Account-of name s.tables h in subtract_with_account name n s a h account

pub add_user_record-Change :
    (name : String) (ts : Timestamp) (sign : RsaSignature) (s : Sqlite)
    → IsRsaSignature sign
    → Change s.tables (add_user_record name ts sign s).1.tables
unfolding add_user_record insert_record
add_user_record-Change name ts sign s size =
    elim (Bool-cases (has_record name (row_of name ts sign).timestamp s.tables.history)) [
      | inr fresh ↦ elim (Option-cases (find_user name s.tables.users)) [
        | inl missing ↦ ground (arith, same s.tables)
        | inr (row, known) ↦
            let change : Change s.tables
                (record s.tables { history = s.tables.history ++ row_of name ts sign ∷ [] }) =
              recorded name ts sign size (λ e. cc) fresh in
            ground (arith, change, same s.tables)
      ]
      | inl taken ↦ ground (arith, same s.tables)
    ]
