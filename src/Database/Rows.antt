-- ===== src/Database/Rows.antt =====
-- The rows of the `users` table under the statements of server/src/database.rs: what a lookup sees
-- after an UPDATE or an INSERT.
use stss.Prelude.{
  ◌≡◌, refl, false, Option, none, some, List, [], ◌∷◌, ◌++◌, String, ℤ, pos, ◌≤ℤ◌, i64_max, ltb_ℤ,
  arith, str_eq, eq_iff, All, Bool-cases, inl, inr, if◌then◌else◌,
}
use mathlib.Core.Path.{subst}
use stss.Database.Schema.{UserRow, find_user, update_rows, violates_check}

-- No username stands in two rows.
abbrev pub IsKeyed : List UserRow → Type 0
IsKeyed [] = Unit
IsKeyed (row ∷ rows) = (find_user row.username rows ≡ none) × IsKeyed rows

-- A token count is not negative and fits `i64`.
abbrev pub InRange : UserRow → Type 0
InRange row = (pos 0 ≤ℤ row.available_tokens) × (row.available_tokens ≤ℤ i64_max)

abbrev pub with_tokens : (ℤ → ℤ) → Option UserRow → Option UserRow
with_tokens f none = none
with_tokens f (some row) = some (record row { available_tokens = f row.available_tokens })

pub find-update :
    (k j : String) (f : ℤ → ℤ) (rows : List UserRow)
    → find_user j (update_rows k f rows)
      ≡ (if str_eq k j then with_tokens f (find_user j rows) else find_user j rows)
unfolding find_user update_rows
find-update k j f [] = ground arith
find-update k j f (row ∷ rows) =
    ground (arith, find-update k j f rows, eq_iff row.username k, eq_iff row.username j, eq_iff k j)

pub find-append :
    (j : String) (rows : List UserRow) (new : UserRow)
    → find_user j (rows ++ new ∷ []) ≡ elim (find_user j rows) [
      | some row ↦ some row
      | none ↦ if str_eq new.username j then some new else none
    ]
unfolding find_user
find-append j [] new = ground arith
find-append j (row ∷ rows) new = ground (arith, find-append j rows new)

pub find_user-All {κ} :
    (P : UserRow → Type κ) (j : String) (rows : List UserRow) (row : UserRow)
    → All P rows
    → find_user j rows ≡ some row
    → P row
unfolding find_user
find_user-All P j [] row h e = cc
find_user-All P j (first ∷ rows) row h e = elim (Bool-cases (str_eq first.username j)) [
  | inl same ↦ let found : some first ≡ some row = rw same at e in subst P (cc) h.0
  | inr other ↦ find_user-All P j rows row h.1 (rw other at e)
]

no_violation :
    (name : String) (f : ℤ → ℤ) (rows : List UserRow)
    → find_user name rows ≡ none
    → violates_check name (update_rows name f rows) ≡ false
unfolding find_user update_rows violates_check
no_violation name f [] e = refl
no_violation name f (row ∷ rows) e = ground (arith, no_violation name f rows)

-- With unique usernames an UPDATE breaks the CHECK exactly if the new count of its row is negative.
pub violates_check-update :
    (name : String) (f : ℤ → ℤ) (rows : List UserRow)
    → IsKeyed rows
    → violates_check name (update_rows name f rows) ≡ elim (find_user name rows) [
      | none ↦ false
      | some row ↦ ltb_ℤ (f row.available_tokens) (pos 0)
    ]
unfolding find_user update_rows violates_check
violates_check-update name f [] h = refl
violates_check-update name f (row ∷ rows) h = ground (
  arith,
  violates_check-update name f rows h.1,
  no_violation name f rows,
  eq_iff row.username name,
)

pub IsKeyed-update :
    (name : String) (f : ℤ → ℤ) (rows : List UserRow)
    → IsKeyed rows
    → IsKeyed (update_rows name f rows)
unfolding update_rows
IsKeyed-update name f [] h = tt
IsKeyed-update name f (row ∷ rows) h =
    ground (arith, IsKeyed-update name f rows h.1, find-update name row.username f rows)

pub IsKeyed-append :
    (rows : List UserRow) (new : UserRow)
    → IsKeyed rows
    → find_user new.username rows ≡ none
    → IsKeyed (rows ++ new ∷ [])
unfolding find_user
IsKeyed-append [] new h e = (refl, tt)
IsKeyed-append (row ∷ rows) new h e = ground (
  arith,
  IsKeyed-append rows new h.1,
  find-append row.username rows new,
  eq_iff new.username row.username,
  eq_iff row.username new.username,
)
