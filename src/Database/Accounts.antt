-- ===== src/Database/Accounts.antt =====
-- Registration and password checks: `try_register_user` and `verify_user_password` of
-- server/src/database.rs.
use stss.Prelude.{
  ◌≡◌, ◌≢◌, refl, Bool, true, false, ◌⊎◌, none, some, String, Result, ok, err, pos, arith, eq_iff,
  [], ◌∷◌, ◌++◌, inl, inr, Result-cases,
}
use stss.Database.{
  PasswordHasher, IsPasswordHasher, verify_user_password, insert_account, try_register_user,
}
use stss.Database.Schema.{
  Tables, UserRow, sql, hash, failure, AuthenticationError, user_not_found, invalid_password,
  RegistrationError, user_already_exists, find_user, insert_user,
}
use stss.Database.Monad.{Sqlite, next_fault, FailedWith, faults_in_order}
use stss.Database.Rows.{find-append}
use stss.Database.Tokens.{OthersKept}

module _ (h : PasswordHasher) where
  open h use {PasswordHash, hash_password, parse, verify_password}

  abbrev pub new_row : String → String → String → UserRow
  new_row name stored ip = record {
    username = name;
    password_hash = stored;
    available_tokens = pos 0;
    registered_from_ip = ip;
  }

  -- What a registration has done: a new account with no tokens under a name that was free, or
  -- nothing at all.
  abbrev pub RegisterPost :
      String
      → String
      → String
      → String
      → Sqlite
      → Result RegistrationError (Unit {0}) × Sqlite
      → Type 0
  RegisterPost name password ip salt s (ok _, s') =
      (find_user name s.tables.users ≡ none)
      × ((stored : String) × (hash_password password salt ≡ ok stored)
          × (find_user name s'.tables.users ≡ some (new_row name stored ip)))
      × OthersKept name s.tables s'.tables
  RegisterPost name password ip salt s (err (user_already_exists who), s') =
      (s'.tables ≡ s.tables) × (who ≡ name) × (find_user name s.tables.users ≢ none)
  RegisterPost name password ip salt s (err (RegistrationError.internal_data_base (sql e)), s') =
      (s'.tables ≡ s.tables) × ((text : String) × (e ≡ failure text) × FailedWith text s s')
  RegisterPost name password ip salt s (err (RegistrationError.internal_data_base (hash e)), s') =
      (s'.tables ≡ s.tables) × (hash_password password salt ≡ err e)

  OthersKept-append :
      (name : String) (row : UserRow) (t : Tables)
      → row.username ≡ name
      → OthersKept name t (record t { users = t.users ++ row ∷ [] })
  OthersKept-append name row t e = record {
    users = λ j ne. ground (arith, find-append j t.users row, eq_iff row.username j);
    history = refl;
  }

  insert_account-RegisterPost :
      (name password ip salt stored : String) (s : Sqlite)
      → hash_password password salt ≡ ok stored
      → RegisterPost name password ip salt s (insert_account h name ip stored s)
  unfolding insert_account insert_user
  insert_account-RegisterPost name password ip salt stored s p = ground (
    arith,
    faults_in_order 1 s.faults,
    find-append name s.tables.users (new_row name stored ip),
    eq_iff name name,
    OthersKept-append name (new_row name stored ip) s.tables refl,
  )

  -- What `try_register_user` has done. Success: the name was free, and its new account has the hash of
  -- the password, the client's address and no tokens, while all else is as before. Every error leaves
  -- the tables as they were: an existing user only if the name has an account, a hashing error only
  -- with the error of the hasher, a database error only with the text of a statement that has failed.
  pub try_register_user-RegisterPost :
      (name password ip salt : String) (s : Sqlite)
      → RegisterPost name password ip salt s (try_register_user h name password ip salt s)
  unfolding try_register_user
  try_register_user-RegisterPost name password ip salt s =
      elim (Result-cases (hash_password password salt)) [
        | inr (e, p) ↦ ground arith
        | inl (stored, p) ↦
            ground (arith, insert_account-RegisterPost name password ip salt stored s p)
      ]

  -- Whether the hash that is stored for `name` can be read and fits the password.
  abbrev pub hash_accepts : String → Result String PasswordHash → Bool
  hash_accepts password (ok p) = verify_password password p
  hash_accepts password (err _) = false

  abbrev pub accepts : String → String → Tables → Bool
  accepts name password t = elim (find_user name t.users) [
    | none ↦ false
    | some row ↦ hash_accepts password (parse row.password_hash)
  ]

  -- What a password check has done: it changes nothing, and it succeeds exactly if the stored hash
  -- accepts the password.
  abbrev pub VerifyPost :
      String → String → Sqlite → Result AuthenticationError (Unit {0}) × Sqlite → Type 0
  VerifyPost name password s (ok _, s') =
      (s'.tables ≡ s.tables) × (accepts name password s.tables ≡ true)
  VerifyPost name password s (err (user_not_found who), s') =
      (s'.tables ≡ s.tables) × (who ≡ name) × (find_user name s.tables.users ≡ none)
  VerifyPost name password s (err invalid_password, s') =
      (s'.tables ≡ s.tables)
      × (find_user name s.tables.users ≢ none)
      × (accepts name password s.tables ≡ false)
  VerifyPost name password s (err (AuthenticationError.internal_data_base e), s') =
      (s'.tables ≡ s.tables) × (accepts name password s.tables ≡ false)
      ⊎ (s'.tables ≡ s.tables) × ((text : String) × (e ≡ sql (failure text)) × FailedWith text s s')

  -- What `verify_user_password` has done: the tables are as before; it succeeds only if the stored hash
  -- accepts the password; an unknown user has no account; an invalid password is that of an account whose
  -- hash does not accept it; any other error is an unreadable hash or a failed statement.
  pub verify_user_password-VerifyPost :
      (name password : String) (s : Sqlite)
      → VerifyPost name password s (verify_user_password h name password s)
  unfolding verify_user_password
  verify_user_password-VerifyPost name password s = ground (arith, faults_in_order 1 s.faults)

  registered_row :
      (name password ip salt : String) (s : Sqlite)
      (r : Result RegistrationError (Unit {0}) × Sqlite)
      → RegisterPost name password ip salt s r
      → r.0 ≡ ok tt
      → (stored : String) × (hash_password password salt ≡ ok stored)
        × (find_user name r.1.tables.users ≡ some (new_row name stored ip))
  registered_row name password ip salt s (ok _, s') post e = post.1
  registered_row name password ip salt s (err _, s') post e = cc

  -- After a registration that succeeded, with a hasher that satisfies its law, the same name and
  -- password are accepted on the tables it left, while no statement fails.
  pub verify-register :
      (name password ip salt : String) (s t : Sqlite)
      → IsPasswordHasher h
      → (try_register_user h name password ip salt s).0 ≡ ok tt
      → t.tables ≡ (try_register_user h name password ip salt s).1.tables
      → t.faults ≡ []
      → (verify_user_password h name password t).0 ≡ ok tt
  unfolding verify_user_password next_fault
  verify-register name password ip salt s t law registered same quiet =
      let (stored, hashed, found) =
        registered_row name password ip salt s _
          (try_register_user-RegisterPost name password ip salt s) registered in
      let (p, parsed, fits) = law.verify-hash password salt stored hashed in
      let here : find_user name t.tables.users ≡ some (new_row name stored ip) = rw same found in
      ground arith
