-- ===== src/Prelude/Results.antt =====
-- Rust's `Result`, with the error type first, and its `map_err` and `?`.
use mathlib.Core.Path.{◌≡◌, refl, ap}
use mathlib.Core.Logic.{◌⊎◌, inl, inr}
use mathlib.Core.Option.{Option, none, some}
use mathlib.Core.Bool.{Bool, true, false}
use mathlib.Core.List.{List, [], ◌∷◌}

pub data Result {ℓ κ} (E : Type κ) (A : Type ℓ) : Type (ℓ ⊔ κ) where
  ok : A → Result E A
  err : E → Result E A

abbrev pub map_err {ℓ κ κ'} :
    {E : Type κ} {F : Type κ'} {A : Type ℓ} → (E → F) → Result E A → Result F A
map_err f (ok a) = ok a
map_err f (err e) = err (f e)

-- `e?` followed by the rest of the block.
abbrev pub and_then {ℓ κ μ} :
    {E : Type μ} {A : Type ℓ} {B : Type κ} → Result E A → (A → Result E B) → Result E B
and_then (ok a) f = f a
and_then (err e) f = err e

-- `?` at the end of an expression, for do blocks.
infixl 5 ◌>>=◌ ◌>>◌
abbrev pub ◌>>=◌ {ℓ κ μ} :
    {E : Type μ} {A : Type ℓ} {B : Type κ} → Result E A → (A → Result E B) → Result E B
r >>= f = and_then r f

abbrev pub ◌>>◌ {ℓ κ μ} :
    {E : Type μ} {A : Type ℓ} {B : Type κ} → Result E A → Result E B → Result E B
r >> q = and_then r (λ _. q)

-- A test that fails with an error.
abbrev pub ensure {κ} : {E : Type κ} → Bool → E → Result E (Unit {0})
ensure true e = ok tt
ensure false e = err e

-- `collect` of results: the first error, or all the values.
abbrev pub collect {ℓ κ} : {E : Type κ} {A : Type ℓ} → List (Result E A) → Result E (List A)
collect [] = ok []
collect (err e ∷ rs) = err e
collect (ok a ∷ rs) = and_then (collect rs) (λ xs. ok (a ∷ xs))

-- `Option::ok_or`.
abbrev pub ok_or {ℓ κ} : {E : Type κ} {A : Type ℓ} → Option A → E → Result E A
ok_or none e = err e
ok_or (some a) e = ok a

pub Result-cases {ℓ κ} :
    {E : Type κ} {A : Type ℓ} (r : Result E A) → ((a : A) × (r ≡ ok a)) ⊎ ((e : E) × (r ≡ err e))
Result-cases (ok a) = inl (a, refl)
Result-cases (err e) = inr (e, refl)

-- A chain that succeeds has succeeded at each step.
pub >>=_inverse {ℓ κ μ} :
    {E : Type μ} {A : Type ℓ} {B : Type κ} (r : Result E A) (f : A → Result E B) {b : B}
    → (r >>= f) ≡ ok b
    → (a : A) × (r ≡ ok a) × (f a ≡ ok b)
>>=_inverse (ok a) f h = (a, refl, h)
>>=_inverse (err e) f h = cc

pub ensure_inverse {κ} : {E : Type κ} (b : Bool) (e : E) → ensure b e ≡ ok tt → b ≡ true
ensure_inverse true e h = refl
ensure_inverse false e h = cc

pub map_err_inverse {ℓ κ κ'} :
    {E : Type κ} {F : Type κ'} {A : Type ℓ} (f : E → F) (r : Result E A) {a : A}
    → map_err f r ≡ ok a
    → r ≡ ok a
map_err_inverse f (ok a) h = cc h
map_err_inverse f (err e) h = cc

pub ok_injective {ℓ κ} :
    {E : Type κ} {A : Type ℓ} {a b : A} → let r : Result E A = ok a in r ≡ ok b → a ≡ b
ok_injective h = cc h

pub ok_or_inverse {ℓ κ} :
    {E : Type κ} {A : Type ℓ} (o : Option A) (e : E) {a : A} → ok_or o e ≡ ok a → o ≡ some a
ok_or_inverse none e h = cc
ok_or_inverse (some a) e h = ap some (ok_injective h)
