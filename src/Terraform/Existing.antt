-- ===== src/Terraform/Existing.antt =====
-- `generate_all` of terraform/src/lib.rs where the directory of the environment is there already.
use stss.Prelude.{ℕ, ◌≡◌, refl, arith, true, Option, [], String, Result, ok, err}
use stss.Terraform.{FilePath, Processor}
use stss.Terraform.Files.{Fs, Io, ◌>>=◌, create_dir, lift, exists_dir}
use stss.Terraform.Keys.{Crates, Keys, KeyGenError, generate_keys}
use stss.Terraform.Generator.{
  Generator, create_dirs, distribute, generate_keys_and_distribute, generate_tomls, generate_all,
  key_gen, toml_gen, mapped,
}

abbrev pub root : Generator → FilePath
root g = record { dir = g.env.root_dir; names = [] }

abbrev pub IsErr : {E A : Type 0} → Result E A → Type 0
IsErr (ok a) = ⊥
IsErr (err e) = Unit

-- The call has failed, and no file has been written and no directory made.
abbrev pub Refused : {E A : Type 0} → Fs → Result E A × Fs → Type 0
Refused s o = IsErr o.0 × (o.1.files ≡ s.files) × (o.1.dirs ≡ s.dirs)

create_dir-Refused :
    {E : Type 0}
    → (io : String → E) (p : FilePath) (s : Fs) → exists_dir p s.dirs ≡ true
    → Refused s (create_dir io p s)
unfolding create_dir
create_dir-Refused io p s h = ground (arith, h)

bind-Refused :
    {E A B : Type 0}
    → (s : Fs) (m : Io E A) (f : A → Io E B) → Refused s (m s)
    → Refused s ((m >>= f) s)
bind-Refused s m f h = ground (arith, h)

abbrev pub then_dir : Io KeyGenError (Unit {0}) → FilePath → Io KeyGenError (Unit {0})
then_dir m p = m >>= λ _. create_dir KeyGenError.io p

then_dir-Refused :
    (s : Fs) (m : Io KeyGenError (Unit {0})) (p : FilePath)
    → Refused s (m s)
    → Refused s (then_dir m p s)
then_dir-Refused s m p h = bind-Refused s m (λ _. create_dir KeyGenError.io p) h

module _ (g : Generator) (crates : Crates) (show : FilePath → String) where
  mapped-Refused :
      {E F A : Type 0}
      → (f : E → F) (s : Fs) (m : Io E A) → Refused s (m s)
      → Refused s (mapped g crates show f m s)
  mapped-Refused f s m h = ground (arith, h)

  lifted :
      (s : Fs) (keys : Result KeyGenError Keys) (f : Keys → Io KeyGenError (Unit {0}))
      → ((k : Keys) → Refused s (f k s))
      → Refused s ((lift keys >>= f) s)
  lifted s (ok k) f h = h k
  lifted s (err e) f h = (tt, refl, refl)

  create_dirs-Refused : (s : Fs) → exists_dir (root g) s.dirs ≡ true → Refused s (create_dirs g s)
  unfolding create_dirs create_dir
  create_dirs-Refused s h =
      let at_root = create_dir KeyGenError.io (root g) in
      let with_ca = then_dir at_root g.env.ca_dir in
      let with_server = then_dir with_ca g.env.server_dir in
      then_dir-Refused s with_server g.env.client_dir (
        then_dir-Refused s with_ca g.env.server_dir (
          then_dir-Refused s at_root g.env.ca_dir (create_dir-Refused KeyGenError.io (root g) s h)))

  generate_keys-Refused :
      (s : Fs)
      → exists_dir (root g) s.dirs ≡ true
      → Refused s (generate_keys_and_distribute g crates show s)
  unfolding generate_keys_and_distribute
  generate_keys-Refused s h =
      lifted s (generate_keys crates) (λ keys. create_dirs g >>= λ _. distribute g keys)
        (λ keys. bind-Refused s (create_dirs g) (λ _. distribute g keys) (create_dirs-Refused s h))

  -- Where the root directory of the environment exists, `generate_all` fails, writes no file and makes no
  -- directory: it overwrites none of the keys, certificates and configurations of an earlier environment.
  pub generate_all-Refused :
      (cpu : Processor) (parallelism : Option ℕ) (s : Fs)
      → exists_dir (root g) s.dirs ≡ true
      → Refused s (generate_all g crates show cpu parallelism s)
  unfolding generate_all
  generate_all-Refused cpu parallelism s h =
      let keys = generate_keys_and_distribute g crates show in
      bind-Refused s (mapped g crates show key_gen keys)
        (λ _. mapped g crates show toml_gen (generate_tomls g crates show cpu parallelism))
        (mapped-Refused key_gen s keys (generate_keys-Refused s h))
