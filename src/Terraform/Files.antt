-- ===== src/Terraform/Files.antt =====
-- The file system as terraform/src/lib.rs uses it: creating directories, writing files, and asking for the
-- absolute path of a file. `faults` says of each coming call whether it fails otherwise than by its own
-- rules; when the list is used up, nothing more fails.
use stss.Prelude.{
  Bool, true, false, ◌&&◌, Option, none, some, List, [], ◌∷◌, String, Result, ok, err, str_eq,
  if◌then◌else◌,
}
use stss.Connection.Types.{contains}
use stss.Terraform.{FilePath}

-- What the program finds: the directories that a path may start with and that can hold one, and the absolute paths
-- that paths have once their links are followed.
pub record Mount : Type 0 where
  pub roots : List String
  pub resolve : FilePath → FilePath

pub record Fs : Type 0 where
  pub mount : Mount
  pub dirs : List FilePath
  pub files : List (FilePath × String)
  pub faults : List (Option String)

abbrev pub Io : Type 0 → Type 0 → Type 0
Io E A = Fs → Result E A × Fs

infixl 5 ◌>>=◌ ◌>>◌
abbrev pub ◌>>=◌ : {E A B : Type 0} → Io E A → (A → Io E B) → Io E B
◌>>=◌ m f s = let (r, s') = m s in elim r [ ok a ↦ f a s' | err e ↦ (err e, s') ]

abbrev pub ◌>>◌ : {E A B : Type 0} → Io E A → Io E B → Io E B
m >> k = m >>= λ _. k

abbrev pub lift : {E A : Type 0} → Result E A → Io E A
lift r s = (r, s)

abbrev pub same_names : List String → List String → Bool
same_names [] [] = true
same_names [] (n ∷ ns) = false
same_names (m ∷ ms) [] = false
same_names (m ∷ ms) (n ∷ ns) = str_eq m n && same_names ms ns

abbrev pub same_path : FilePath → FilePath → Bool
same_path p q = str_eq p.dir q.dir && same_names p.names q.names

unfoldable pub exists_dir : FilePath → List FilePath → Bool
exists_dir p [] = false
exists_dir p (d ∷ ds) = if same_path p d then true else exists_dir p ds

-- The text of the file, if there is one.
unfoldable pub content : FilePath → List (FilePath × String) → Option String
content p [] = none
content p ((q, text) ∷ fs) = if same_path p q then some text else content p fs

abbrev pub next_fault : List (Option String) → Option String × List (Option String)
next_fault [] = (none, [])
next_fault (f ∷ fs) = (f, fs)

-- A call that the fault of its turn lets through or not.
abbrev pub call : {E A : Type 0} → (String → E) → (Fs → Result E A × Fs) → Io E A
call io m s =
    let (fault, rest) = next_fault s.faults in
    elim fault [
      | some text ↦ (err (io text), record s { faults = rest })
      | none ↦ m (record s { faults = rest })
    ]

-- Whether the directory exists that a path stands in: behind the first directory, one that the path names.
abbrev pub init : List String → List String
init [] = []
init (n ∷ []) = []
init (n ∷ m ∷ ms) = n ∷ init (m ∷ ms)

abbrev pub stands_in : String → List String → Fs → Bool
stands_in dir [] s = contains dir s.mount.roots
stands_in dir (n ∷ ns) s = exists_dir (record { dir = dir; names = init (n ∷ ns) }) s.dirs

abbrev pub has_parent : FilePath → Fs → Bool
has_parent p s = stands_in p.dir p.names s

abbrev pub is_some : Option String → Bool
is_some none = false
is_some (some text) = true

-- Whether a directory or a file has the path.
abbrev pub exists : FilePath → Fs → Bool
exists p s = if exists_dir p s.dirs then true else is_some (content p s.files)

-- `fs::create_dir`: the directory above it is there, and nothing else has its path.
unfoldable pub create_dir : {E : Type 0} → (String → E) → FilePath → Io E (Unit {0})
create_dir io p = call io (λ s.
    if has_parent p s
    then (if exists p s
        then (err (io "File exists"), s)
        else (ok tt, record s { dirs = p ∷ s.dirs }))
    else (err (io "No such file or directory"), s))

-- `fs::write`: the directory above the file is there, and the path is not that of a directory.
unfoldable pub write : {E : Type 0} → (String → E) → FilePath → String → Io E (Unit {0})
write io p text = call io (λ s.
    if has_parent p s
    then (if exists_dir p s.dirs
        then (err (io "Is a directory"), s)
        else (ok tt, record s { files = (p, text) ∷ s.files }))
    else (err (io "No such file or directory"), s))

-- `canonicalize`: the absolute path, if something has the path.
unfoldable pub canonicalize : {E : Type 0} → (String → E) → FilePath → Io E FilePath
canonicalize io p = call io (λ s.
    if exists p s then (ok (s.mount.resolve p), s) else (err (io "No such file or directory"), s))
