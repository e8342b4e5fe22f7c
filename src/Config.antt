-- ===== src/Config.antt =====
-- The configuration files of the server, the command-line client and the certification authority: what
-- they share. TOML, PEM, UTF-8, IP addresses and paths are read by crates and the standard library.
pub mod Server
pub mod Configured
pub mod Client
pub mod Authority
use stss.Prelude.{ℕ, Option, some, List, [], ◌∷◌, String, Result, map_err, ◌>>=◌, collect}
use stss.SafeRead.{SafeReadError, OpenError, File}
use stss.SafeRead.Total.{read_file}

-- `Path::extension`, opening a file, `String::from_utf8`, `IpAddr::from_str`, `Path::parent`,
-- `Path::file_name`; an `IpAddr` is its text.
pub record Reader : Type 0 where
  pub extension : String → Option String
  pub open_file : String → Result OpenError File
  pub from_utf8 : List ℕ → Result String String
  pub parse_ip : String → Result String String
  pub parent : String → Option String
  pub file_name : String → Option String

abbrev pub toml_ext : Option String
toml_ext = some "toml"

abbrev pub pem_ext : Option String
pem_ext = some "pem"

-- `ConfigError`
pub data ConfigError : Type 0 where
  toml_not_in_utf8 parse : String → ConfigError
  safe_read : SafeReadError → ConfigError

unfoldable pub read : Reader → String → Option String → Result SafeReadError (List ℕ)
read files path ext = read_file files.extension files.open_file path ext

-- `Config::from_file`, the same in the three programs; `from_str` is that of the crate `toml`.
unfoldable pub from_file :
    {Config : Type 0}
    → Reader
    → (String → Result String Config)
    → String
    → Result ConfigError Config
from_file files from_str path = do
  bytes ← map_err safe_read (read files path toml_ext)
  raw_toml ← map_err toml_not_in_utf8 (files.from_utf8 bytes)
  map_err parse (from_str raw_toml)

abbrev pub map_certs : {E A : Type 0} → (String → E) → List (Result String A) → List (Result E A)
map_certs f [] = []
map_certs f (c ∷ cs) = map_err f c ∷ map_certs f cs

-- The certificates of a PEM file: the first that cannot be parsed is the error.
unfoldable pub read_certs :
    {E A : Type 0}
    → Reader
    → (List ℕ → List (Result String A))
    → (SafeReadError → E)
    → (String → E)
    → String
    → Result E (List A)
read_certs files certs unread unparsed path = do
  bytes ← map_err unread (read files path pem_ext)
  collect (map_certs unparsed (certs bytes))
