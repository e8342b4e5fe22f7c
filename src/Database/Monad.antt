-- ===== src/Database/Monad.antt =====
-- How the methods of server/src/database.rs reach the database: one SQL statement after another,
-- each of which the environment may make fail (the I/O, locking and pool errors of `sqlx`), and
-- transactions that are rolled back unless they are committed. Transactions of SQLite are
-- serializable, so a whole transaction is one step of the model.
use stss.Prelude.{
  ℕ, zero, suc, ◌≡◌, refl, Option, none, some, List, [], ◌∷◌, String, Result, ok, err, map_err,
}
use stss.Database.Schema.{Tables, SqlError, failure}

-- `faults` says of each coming statement whether it fails, and with which text; when the list is
-- used up, nothing more fails.
pub record Sqlite : Type 0 where
  pub tables : Tables
  pub faults : List (Option String)

abbrev pub Db : Type 0 → Type 0 → Type 0
Db E A = Sqlite → Result E A × Sqlite

unfoldable pub next_fault : List (Option String) → Option String × List (Option String)
next_fault [] = (none, [])
next_fault (f ∷ fs) = (f, fs)

-- The first of the coming statements that fails: its text, and the outcomes behind it.
unfoldable pub first_fault : List (Option String) → Option (String × List (Option String))
first_fault [] = none
first_fault (none ∷ fs) = first_fault fs
first_fault (some text ∷ fs) = some (text, fs)

abbrev pub first_of : Option String × List (Option String) → Option (String × List (Option String))
first_of (none, fs) = first_fault fs
first_of (some text, fs) = some (text, fs)

first_fault-next : (fs : List (Option String)) → first_fault fs ≡ first_of (next_fault fs)
unfolding first_fault next_fault
first_fault-next [] = refl
first_fault-next (none ∷ fs) = refl
first_fault-next (some text ∷ fs) = refl

abbrev pub NextFaults : ℕ → List (Option String) → Type 0
NextFaults zero fs = Unit
NextFaults (suc n) fs = (first_fault fs ≡ first_of (next_fault fs)) × NextFaults n (next_fault fs).1

-- The first fault, one statement after another.
pub faults_in_order : (n : ℕ) (fs : List (Option String)) → NextFaults n fs
faults_in_order zero fs = tt
faults_in_order (suc n) fs = (first_fault-next fs, faults_in_order n (next_fault fs).1)

-- A statement has failed with this text. It is the first that does, and the last that has run.
abbrev pub FailedWith : String → Sqlite → Sqlite → Type 0
FailedWith text s s' = first_fault s.faults ≡ some (text, s'.faults)

abbrev pub pure : {E A : Type 0} → A → Db E A
pure a s = (ok a, s)

abbrev pub fail : {E A : Type 0} → E → Db E A
fail e s = (err e, s)

abbrev pub lift : {E A : Type 0} → Result E A → Db E A
lift r s = (r, s)

infixl 5 ◌>>=◌ ◌>>◌
abbrev pub ◌>>=◌ : {E A B : Type 0} → Db E A → (A → Db E B) → Db E B
◌>>=◌ m f s = let (r, s') = m s in elim r [ ok a ↦ f a s' | err e ↦ (err e, s') ]

abbrev pub ◌>>◌ : {E A B : Type 0} → Db E A → Db E B → Db E B
m >> k = m >>= λ _. k

abbrev pub finish_statement :
    {A : Type 0}
    → Option String
    → Result SqlError (A × Tables)
    → Tables
    → Result SqlError A × Tables
finish_statement (some text) _ t = (err (failure text), t)
finish_statement none (ok (a, t')) t = (ok a, t')
finish_statement none (err e) t = (err e, t)

-- One statement: it fails, or it runs on the tables.
abbrev pub statement :
    {E A : Type 0} → (SqlError → E) → (Tables → Result SqlError (A × Tables)) → Db E A
statement wrap q s =
    let (fault, rest) = next_fault s.faults in
    let (r, t) = finish_statement fault (q s.tables) s.tables in
    (map_err wrap r, record { tables = t; faults = rest })

-- BEGIN and COMMIT touch no row.
abbrev pub no_rows : Tables → Result SqlError (Unit {0} × Tables)
no_rows t = ok (tt, t)

-- A dropped transaction restores the tables that it began with.
abbrev pub or_roll_back : {E A : Type 0} → Tables → Result E A × Sqlite → Result E A × Sqlite
or_roll_back t (ok a, s) = (ok a, s)
or_roll_back t (err e, s) = (err e, record s { tables = t })

-- `begin`, the body, `commit`.
abbrev pub transaction : {E A : Type 0} → (SqlError → E) → Db E A → Db E A
transaction wrap body s =
    or_roll_back s.tables
      ((statement wrap no_rows >>= λ _. body >>= λ a. statement wrap no_rows >>= λ _. pure a) s)

-- `begin` and a body that only reads; the transaction is dropped without a commit.
abbrev pub read_transaction : {E A : Type 0} → (SqlError → E) → Db E A → Db E A
read_transaction wrap body s =
    let (r, s') = (statement wrap no_rows >>= λ _. body) s in (r, record s' { tables = s.tables })
