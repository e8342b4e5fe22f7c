-- ===== src/Database/Tokens.antt =====
-- Token accounts under `get_user_tokens`, `add_user_tokens` and `subtract_user_tokens` of
-- server/src/database.rs: what each has done, on every way in which it can end.
use stss.Prelude.{
  ℕ, ◌+◌, ◌^◌, ◌≤◌, ◌<◌, ◌≡◌, ◌≢◌, inl, inr, refl, Option, none, some, String, Result, ok, err, ℤ,
  pos, pos_part, pos-add, ◌+ℤ◌, ◌-ℤ◌, arith, All, eq_iff, Option-cases, [], ltb, leb, ◌-◌, pos-sub,
  pos-sub_short, if◌then◌else◌,
}
use native.Mathlib.Decide.{dec_le}
use stss.Database.{select_tokens, add_user_tokens, subtract_user_tokens, get_user_tokens}
use stss.Database.Schema.{
  Tables, sql, failure, AddTokensError, token_overflow, SubtractTokensError, insufficient_tokens,
  GetTokensError, token_integrity_check_violated, find_user, update_rows, update_tokens,
}
use stss.Database.Monad.{Sqlite, next_fault, FailedWith, faults_in_order}
use stss.Database.Rows.{IsKeyed, InRange, find-update, find_user-All, violates_check-update}

-- The accounts of valid tables: unique usernames, and counts from 0 to the greatest `i64`.
pub record HasAccounts (t : Tables) : Type 0 where
  pub keyed : IsKeyed t.users
  pub in_range : All InRange t.users

-- Everything but the token count of `name` is as before.
pub record OthersKept (name : String) (s t : Tables) : Type 0 where
  pub users : (j : String) → j ≢ name → find_user j t.users ≡ find_user j s.users
  pub history : t.history ≡ s.history

pub record Holds (name : String) (t : Tables) (n : ℕ) : Type 0 where
  pub tokens : select_tokens name t ≡ some (pos n)
  pub bound : n < 2 ^ 63

-- The account of `name`: none, or its count.
abbrev pub Account : String → Tables → Option ℕ → Type 0
Account name t none = select_tokens name t ≡ none
Account name t (some n) = Holds name t n

pub Account-of : (name : String) (t : Tables) → HasAccounts t → (a : Option ℕ) × Account name t a
Account-of name t h = elim (Option-cases (find_user name t.users)) [
  | inl missing ↦ (none, ground arith)
  | inr (row, e) ↦
      let range = find_user-All InRange name t.users row h.in_range e in
      (some (pos_part row.available_tokens), record { tokens = ground arith; bound = ground arith })
]

abbrev pub updated : String → (ℤ → ℤ) → Tables → Tables
updated name f t = record t { users = update_rows name f t.users }

OthersKept-updated : (name : String) (f : ℤ → ℤ) (t : Tables) → OthersKept name t (updated name f t)
OthersKept-updated name f t = record {
  users = λ j ne. ground (arith, find-update name j f t.users, eq_iff name j);
  history = refl;
}

tokens-updated :
    (name : String) (f : ℤ → ℤ) (t : Tables) {z : ℤ}
    → select_tokens name t ≡ some z
    → select_tokens name (updated name f t) ≡ some (f z)
tokens-updated name f t e = ground (arith, find-update name name f t.users, eq_iff name name)

pub update_tokens_ok :
    (name : String) (f : ℤ → ℤ) (t : Tables) {z : ℤ} {m : ℕ}
    → IsKeyed t.users
    → select_tokens name t ≡ some z
    → f z ≡ pos m
    → update_tokens name f t ≡ ok (tt, updated name f t)
unfolding update_tokens
update_tokens_ok name f t h e p = ground (arith, violates_check-update name f t.users h)

abbrev pub AddPost : String → ℕ → Option ℕ → Sqlite → Result AddTokensError ℕ × Sqlite → Type 0
AddPost name n (some b) s (ok total, s') =
    (total ≡ b + n) × Holds name s'.tables total × OthersKept name s.tables s'.tables
AddPost name n none s (ok total, s') = ⊥
AddPost name n (some b) s (err token_overflow, s') = (s'.tables ≡ s.tables) × (2 ^ 63 ≤ b + n)
AddPost name n none s (err token_overflow, s') = (s'.tables ≡ s.tables) × (2 ^ 63 ≤ n)
AddPost name n a s (err AddTokensError.user_does_not_exist, s') =
    (s'.tables ≡ s.tables) × (a ≡ none)
AddPost name n a s (err (AddTokensError.internal_data_base e), s') =
    (s'.tables ≡ s.tables) × ((text : String) × (e ≡ sql (failure text)) × FailedWith text s s')

-- What `add_user_tokens` has done, on an account of valid tables or on an unknown name. Success: the
-- account existed, the count that is returned and stored is the sum and fits `i64`, and all other accounts
-- and the history are as before. Every error leaves the tables as they were: an overflow only if the
-- sum (for an unknown name, the amount) reaches 2 ^ 63, a missing user only if there is no account,
-- a database error only with the text of a statement that has failed.
pub add_user_tokens-AddPost :
    (name : String) (n : ℕ) (a : Option ℕ) (s : Sqlite)
    → HasAccounts s.tables
    → Account name s.tables a
    → AddPost name n a s (add_user_tokens name n s)
unfolding add_user_tokens
add_user_tokens-AddPost name n none s h account = ground (arith, faults_in_order 5 s.faults)
add_user_tokens-AddPost name n (some b) s h account = ground (
  arith,
  faults_in_order 5 s.faults,
  account.tokens,
  account.bound,
  pos-add b n,
  update_tokens_ok name (λ v. v +ℤ pos n) s.tables h.keyed account.tokens (pos-add b n),
  tokens-updated name (λ v. v +ℤ pos n) s.tables account.tokens,
  OthersKept-updated name (λ v. v +ℤ pos n) s.tables,
)

-- On an account of valid tables, while no statement fails, an addition returns the sum if it is
-- below 2 ^ 63, and an overflow otherwise.
pub add_user_tokens_completes :
    (name : String) (n b : ℕ) (s : Sqlite)
    → HasAccounts s.tables
    → Holds name s.tables b
    → s.faults ≡ []
    → (add_user_tokens name n s).0
      ≡ (if ltb (b + n) (2 ^ 63) then ok (b + n) else err token_overflow)
unfolding add_user_tokens next_fault
add_user_tokens_completes name n b s h account quiet = ground (
  arith,
  account.tokens,
  account.bound,
  pos-add b n,
  update_tokens_ok name (λ v. v +ℤ pos n) s.tables h.keyed account.tokens (pos-add b n),
)

abbrev pub SubtractPost :
    String → ℕ → Option ℕ → Sqlite → Result SubtractTokensError ℕ × Sqlite → Type 0
SubtractPost name n (some b) s (ok left, s') =
    (left + n ≡ b) × Holds name s'.tables left × OthersKept name s.tables s'.tables
SubtractPost name n none s (ok left, s') = ⊥
SubtractPost name n (some b) s (err insufficient_tokens, s') = (s'.tables ≡ s.tables) × (b < n)
SubtractPost name n none s (err insufficient_tokens, s') = (s'.tables ≡ s.tables) × (2 ^ 63 ≤ n)
SubtractPost name n a s (err SubtractTokensError.user_does_not_exist, s') =
    (s'.tables ≡ s.tables) × (a ≡ none)
SubtractPost name n a s (err (SubtractTokensError.internal_data_base e), s') =
    (s'.tables ≡ s.tables) × ((text : String) × (e ≡ sql (failure text)) × FailedWith text s s')

-- What `subtract_user_tokens` has done, on an account of valid tables or on an unknown name. Success: the
-- account existed, the count that is returned and stored is the difference, and all other accounts and
-- the history are as before. Every error leaves the tables as they were: insufficient tokens only if
-- the count is below the amount (for an unknown name, if the amount reaches 2 ^ 63), a missing user
-- only if there is no account, a database error only with the text of a statement that has failed.
pub subtract_user_tokens-SubtractPost :
    (name : String) (n : ℕ) (a : Option ℕ) (s : Sqlite)
    → HasAccounts s.tables
    → Account name s.tables a
    → SubtractPost name n a s (subtract_user_tokens name n s)
unfolding subtract_user_tokens
subtract_user_tokens-SubtractPost name n none s h account =
    ground (arith, faults_in_order 5 s.faults)
subtract_user_tokens-SubtractPost name n (some b) s h account = elim (dec_le n b) [
  | yes enough ↦ ground (
    arith,
    faults_in_order 5 s.faults,
    account.tokens,
    account.bound,
    pos-sub b n enough,
    update_tokens_ok name (λ v. v -ℤ pos n) s.tables h.keyed account.tokens (pos-sub b n enough),
    tokens-updated name (λ v. v -ℤ pos n) s.tables account.tokens,
    OthersKept-updated name (λ v. v -ℤ pos n) s.tables,
  )
  | no short ↦ ground (
    arith,
    faults_in_order 5 s.faults,
    account.tokens,
    account.bound,
    pos-sub_short b n (omega arith),
  )
]

-- On an account of valid tables, while no statement fails, a subtraction returns the difference if
-- the count reaches the amount, and insufficient tokens otherwise.
pub subtract_user_tokens_completes :
    (name : String) (n b : ℕ) (s : Sqlite)
    → HasAccounts s.tables
    → Holds name s.tables b
    → s.faults ≡ []
    → (subtract_user_tokens name n s).0 ≡ (if leb n b then ok (b - n) else err insufficient_tokens)
unfolding subtract_user_tokens next_fault
subtract_user_tokens_completes name n b s h account quiet = elim (dec_le n b) [
  | yes enough ↦ ground (
    arith,
    account.tokens,
    account.bound,
    pos-sub b n enough,
    update_tokens_ok name (λ v. v -ℤ pos n) s.tables h.keyed account.tokens (pos-sub b n enough),
  )
  | no short ↦ ground (arith, account.tokens, account.bound, pos-sub_short b n (omega arith))
]

abbrev pub GetPost : Option ℕ → Sqlite → Result GetTokensError ℕ × Sqlite → Type 0
GetPost a s (ok n, s') = (s'.tables ≡ s.tables) × (a ≡ some n)
GetPost a s (err GetTokensError.user_does_not_exist, s') = (s'.tables ≡ s.tables) × (a ≡ none)
GetPost a s (err (token_integrity_check_violated _ _), s') = ⊥
GetPost a s (err (GetTokensError.internal_data_base e), s') =
    (s'.tables ≡ s.tables) × ((text : String) × (e ≡ sql (failure text)) × FailedWith text s s')

-- What `get_user_tokens` has done, on an account whose count is not negative and fits `i64` or on an
-- unknown name: the tables are as before, the result is the count, a missing user has no account, the
-- count is not reported as broken, and any other error is that of a failed statement.
pub get_user_tokens-GetPost :
    (name : String) (a : Option ℕ) (s : Sqlite)
    → Account name s.tables a
    → GetPost a s (get_user_tokens name s)
unfolding get_user_tokens
get_user_tokens-GetPost name none s account = ground (arith, faults_in_order 1 s.faults)
get_user_tokens-GetPost name (some b) s account =
    ground (arith, account.tokens, faults_in_order 1 s.faults)
