-- ===== src/Terraform.antt =====
-- terraform/src/lib.rs: the names, the folders and the thread heuristic of the environment that it generates.
-- `Path::components` of the standard library is a parameter; a path is a directory's text with the names
-- joined to it.
pub mod Files
pub mod Keys
pub mod Generator
pub mod Default
pub mod Existing
pub mod Quiet
pub mod Fresh
pub mod Complete
use Prim.Native.String.{◌++◌}
use stss.Connection.Types.{contains}
use stss.Prelude.{
  ℕ, ◌≡◌, ◌≤◌, ◌/◌, ◌↔◌, ◌≢◌, refl, arith, Bool, true, false, not, ◌||◌, ◌&&◌, Option, none, some,
  List, [], ◌∷◌, String, Result, ok, err, str_eq, eq_iff, ltb, if◌then◌else◌, ◌>>=◌,
}

-- A component of a path; only a normal one is a name.
pub data Component : Type 0 where
  normal : String → Component
  other : Component

pub record FileSystemName : Type 0 where
  pub name : String

pub data FileSystemNameError : Type 0 where
  invalid_file_name : String → FileSystemNameError

abbrev pub single : String → List Component → Result FileSystemNameError FileSystemName
single name (normal n ∷ []) = ok (record { name = name })
single name _ = err (invalid_file_name name)

unfoldable pub new : (String → List Component) → String → Result FileSystemNameError FileSystemName
new components name = single name (components name)

unfoldable pub concat : FileSystemName → FileSystemName → FileSystemName
concat self suffix = record { name = self.name ++ suffix.name }

pub record FilePath : Type 0 where
  pub dir : String
  pub names : List String

abbrev pub join : String → FileSystemName → FilePath
join dir file = record { dir = dir; names = file.name ∷ [] }

abbrev pub append : List String → String → List String
append [] n = n ∷ []
append (m ∷ ms) n = m ∷ append ms n

abbrev pub join_to : FilePath → FileSystemName → FilePath
join_to p file = record { dir = p.dir; names = append p.names file.name }

-- `EnvironmentGenerator`
pub record EnvironmentGenerator : Type 0 where
  pub client_dir : FilePath
  pub server_dir : FilePath
  pub ca_dir : FilePath
  pub root_dir : String

pub record EnvironmentGeneratorBuilder : Type 0 where
  pub client_dir : Option FileSystemName
  pub server_dir : Option FileSystemName
  pub ca_dir : Option FileSystemName
  pub root_dir : String

pub data EnvironmentGeneratorBuildError : Type 0 where
  folders_must_be_different : EnvironmentGeneratorBuildError

abbrev pub default_client_env_subdir : String
default_client_env_subdir = "client_env"

abbrev pub default_server_env_subdir : String
default_server_env_subdir = "server_env"

abbrev pub default_ca_env_subdir : String
default_ca_env_subdir = "ca_env"

abbrev pub from_simulation_dir : String → EnvironmentGeneratorBuilder
from_simulation_dir root = record {
  client_dir = none;
  server_dir = none;
  ca_dir = none;
  root_dir = root;
}

abbrev pub or_default : Option FileSystemName → String → FileSystemName
or_default none text = record { name = text }
or_default (some n) text = n

-- The component that a name is. Paths are compared by their components, and the three have one root.
abbrev pub key : (String → List Component) → FileSystemName → String
key components file = elim (components file.name) [
  | [] ↦ file.name
  | normal n ∷ _ ↦ n
  | other ∷ _ ↦ file.name
]

-- Whether an element comes again: the closure over the `HashSet`.
unfoldable pub has_duplicates : List String → Bool
has_duplicates [] = false
has_duplicates (n ∷ ns) = let rest = has_duplicates ns in if contains n ns then true else rest

unfoldable pub build :
    (String → List Component)
    → EnvironmentGeneratorBuilder
    → Result EnvironmentGeneratorBuildError EnvironmentGenerator
unfolding has_duplicates
build components b =
    let client = or_default b.client_dir default_client_env_subdir in
    let server = or_default b.server_dir default_server_env_subdir in
    let ca = or_default b.ca_dir default_ca_env_subdir in
    if has_duplicates (key components client ∷ key components server ∷ key components ca ∷ [])
    then err folders_must_be_different
    else ok (record {
      client_dir = join b.root_dir client;
      server_dir = join b.root_dir server;
      ca_dir = join b.root_dir ca;
      root_dir = b.root_dir;
    })

-- The limits in order. `clamp` panics if they are not.
abbrev pub ordered_limits : Option (ℕ × ℕ) → ℕ × ℕ
ordered_limits none = (2, 16)
ordered_limits (some (min, max)) = if ltb max min then (max, min) else (min, max)

abbrev pub clamp : ℕ → ℕ → ℕ → ℕ
clamp n min max = if ltb n min then min else if ltb max n then max else n

-- `available_parallelism() / 4`, or two threads if it is unknown.
abbrev pub base_threads : Option ℕ → ℕ
base_threads none = 2
base_threads (some n) = n / 4

-- The target that the program is compiled for, and `is_x86_feature_detected!` or
-- `is_aarch64_feature_detected!` of the processor that it runs on.
pub data Arch : Type 0 where
  x86_64 aarch64 other_arch : Arch

pub record Processor : Type 0 where
  pub target_arch : Arch
  pub is_feature_detected : String → Bool

-- `adx` is asked for twice.
abbrev pub accelerates : Arch → (String → Bool) → Bool
accelerates x86_64 detected =
    not (not (detected "adx") && (not (detected "adx") && not (detected "bmi2")))
accelerates aarch64 detected = detected "neon" || detected "aes"
accelerates other_arch detected = false

unfoldable pub is_crypto_hardware_accelerated : Processor → Bool
is_crypto_hardware_accelerated cpu = accelerates cpu.target_arch cpu.is_feature_detected

-- `parallelism` is what `available_parallelism` answers.
unfoldable pub heuristic_working_threads : Processor → Option ℕ → Option (ℕ × ℕ) → Bool × ℕ
unfolding is_crypto_hardware_accelerated
heuristic_working_threads cpu parallelism thread_limits =
    let (min, max) = ordered_limits thread_limits in
    (is_crypto_hardware_accelerated cpu, clamp (base_threads parallelism) min max)
