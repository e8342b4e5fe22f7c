-- ===== src/Terraform/Quiet.antt =====
-- A disk under terraform/src/lib.rs on which only the rules of the calls can refuse something, and the files that
-- it holds.
use stss.Prelude.{
  ℕ, zero, suc, ◌≡◌, refl, arith, ap, true, Option, none, some, List, [], ◌∷◌, String, Result, ok,
  err, eq_iff, Bool-cases, inl, inr,
}
use mathlib.Core.Path.{subst⁻¹}
use stss.Terraform.{FilePath}
use stss.Terraform.Files.{
  Fs, Mount, Io, ◌>>=◌, canonicalize, exists_dir, content, same_path, same_names,
}

-- A disk on which no call fails otherwise than by its own rules.
abbrev pub quiet : Mount → List FilePath → List (FilePath × String) → Fs
quiet mount dirs files = record { mount = mount; dirs = dirs; files = files; faults = [] }

abbrev pub HasContent : FilePath → List (FilePath × String) → Type 0
HasContent p files = (text : String) × (content p files ≡ some text)

same_names_refl : (ns : List String) → same_names ns ns ≡ true
same_names_refl [] = refl
same_names_refl (n ∷ ns) = ground (arith, same_names_refl ns, (eq_iff n n).1 refl)

pub same_path_refl : (p : FilePath) → same_path p p ≡ true
same_path_refl p = ground (arith, same_names_refl p.names, (eq_iff p.dir p.dir).1 refl)

there :
    (p q : FilePath) (text : String) (files : List (FilePath × String))
    → HasContent p files
    → HasContent p ((q, text) ∷ files)
unfolding content
there p q text files (t, h) = elim (Bool-cases (same_path p q)) [
  | inl e ↦ (text, rw e refl)
  | inr e ↦ (t, rw e h)
]

here :
    (p : FilePath) (text : String) (files : List (FilePath × String))
    → HasContent p ((p, text) ∷ files)
unfolding content
here p text files = (text, rw (same_path_refl p) refl)

abbrev item : ℕ → List (FilePath × String) → Option FilePath
item n [] = none
item zero (f ∷ fs) = some f.0
item (suc n) (f ∷ fs) = item n fs

pub written :
    (n : ℕ) {p : FilePath}
    → (files : List (FilePath × String)) → item n files ≡ some p
    → HasContent p files
written zero [] h = ground (arith, h)
written (suc n) [] h = ground (arith, h)
written zero {p} ((q, text) ∷ fs) h =
    let e : q ≡ p = cc in subst⁻¹ (λ q. HasContent p ((q, text) ∷ fs)) e (here p text fs)
written (suc n) {p} ((q, text) ∷ fs) h = there p q text fs (written n fs h)

pub canonicalize-ok :
    {E : Type 0}
    → (io : String → E) (p : FilePath) (mount : Mount) (dirs : List FilePath)
      (files : List (FilePath × String))
    → HasContent p files
    → canonicalize io p (quiet mount dirs files) ≡ (ok (mount.resolve p), quiet mount dirs files)
unfolding canonicalize
canonicalize-ok io p mount dirs files (text, h) = elim (Bool-cases (exists_dir p dirs)) [
  | inl e ↦ rw e refl
  | inr e ↦ rw e (rw h refl)
]

abbrev resume : {E A B : Type 0} → (A → Io E B) → Result E A × Fs → Result E B × Fs
resume f o = elim o.0 [ ok a ↦ f a o.1 | err e ↦ (err e, o.1) ]

pub bind-ok :
    {E A B : Type 0}
    → (m : Io E A) (f : A → Io E B) (s s' : Fs) (a : A) → m s ≡ (ok a, s')
    → (m >>= f) s ≡ f a s'
bind-ok m f s s' a h = ap (resume f) h
