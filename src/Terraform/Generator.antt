-- ===== src/Terraform/Generator.antt =====
-- `AnyServerFiles`, `ClientFiles` and `Generator` of terraform/src/lib.rs: the keys, certificates and configurations
-- that are generated, and where they are written. Keys, certificates and TOML text are the crates'.
use stss.Prelude.{
  ℕ, Bool, false, Option, none, some, List, [], String, Result, ok, err, map_err, ◌>>=◌ as ◌|>◌,
  str_eq, if◌then◌else◌,
}
use stss.Config.Server
use stss.Config.Client
use stss.Config.Authority
use stss.Terraform.{
  Component, FileSystemName, FileSystemNameError, new, concat, FilePath, join_to,
  EnvironmentGenerator, Processor, heuristic_working_threads,
}
use stss.Terraform.Files.{Io, ◌>>=◌, ◌>>◌, lift, create_dir, write, canonicalize}
use stss.Terraform.Keys.{KeyGenError, Crates, Keys, generate_keys, default_ip}

-- An error is its text, without the path or the name of the file that goes with it.
pub data TomlGenError : Type 0 where
  io canonicalize_error toml_generation : String → TomlGenError

pub data GenerationError : Type 0 where
  key_gen : KeyGenError → GenerationError
  toml_gen : TomlGenError → GenerationError

pub data GeneratorCreationError : Type 0 where
  equal_prefixes : GeneratorCreationError

pub record AnyServerFiles : Type 0 where
  pub tls_cert_name : FileSystemName
  pub tls_key_name : FileSystemName
  pub sign_pub_key_name : FileSystemName
  pub sign_priv_key_name : FileSystemName
  pub toml_name : FileSystemName
  pub given_prefix : FileSystemName

unfoldable pub suffixed : FileSystemName → String → FileSystemName
unfolding concat
suffixed prefix text = concat prefix (record { name = text })

unfoldable pub files_of : FileSystemName → AnyServerFiles
unfolding suffixed
files_of prefix = record {
  tls_cert_name = suffixed prefix "tls_certificate.pem";
  tls_key_name = suffixed prefix "tls_private_key.pem";
  sign_pub_key_name = suffixed prefix "rsa_pub_key.pem";
  sign_priv_key_name = suffixed prefix "rsa_priv_key.pem";
  toml_name = suffixed prefix "config.toml";
  given_prefix = prefix;
}

unfoldable pub default :
    (String → List Component) → String → Result FileSystemNameError AnyServerFiles
unfolding new files_of
default components prefix = new components prefix |> λ safe_prefix. ok (files_of safe_prefix)

pub record Generator : Type 0 where
  pub server_files : AnyServerFiles
  pub ca_files : AnyServerFiles
  -- `ClientFiles`
  pub client_toml : FileSystemName
  pub env : EnvironmentGenerator

unfoldable pub new_from_files :
    AnyServerFiles
    → AnyServerFiles
    → FileSystemName
    → EnvironmentGenerator
    → Result GeneratorCreationError Generator
new_from_files server_files ca_files client_toml env =
    if str_eq server_files.given_prefix.name ca_files.given_prefix.name
    then err equal_prefixes
    else ok (record {
      server_files = server_files;
      ca_files = ca_files;
      client_toml = client_toml;
      env = env;
    })

-- `write_file`
abbrev pub write_file : FilePath → FileSystemName → String → Io KeyGenError (Unit {0})
write_file dir filename text = write KeyGenError.io (join_to dir filename) text

-- `get_canonical_path`
abbrev pub get_canonical_path : FilePath → FileSystemName → Io TomlGenError FilePath
get_canonical_path dir file_name = canonicalize canonicalize_error (join_to dir file_name)

abbrev pub default_synced_time_oracle : Server.SyncedTimeOracleConfig
default_synced_time_oracle = record {
  ntp_server_host = "pool.ntp.org";
  ntp_server_port = 123;
  listener_ip = "0.0.0.0";
  listener_port = 0;
  sync_interval_in_minutes = 5;
}

module _ (g : Generator) where
  unfoldable pub create_dirs : Io KeyGenError (Unit {0})
  unfolding create_dir
  create_dirs =
      create_dir KeyGenError.io (record { dir = g.env.root_dir; names = [] })
      >> create_dir KeyGenError.io g.env.ca_dir
      >> create_dir KeyGenError.io g.env.server_dir
      >> create_dir KeyGenError.io g.env.client_dir

  unfoldable pub distribute : Keys → Io KeyGenError (Unit {0})
  unfolding write
  distribute keys =
      write_file g.env.ca_dir g.ca_files.tls_key_name keys.ca_key_pem
      >> write_file g.env.ca_dir g.ca_files.tls_cert_name keys.ca_cert_pem
      >> write_file g.env.server_dir g.server_files.tls_key_name keys.server_tls_key_pem
      >> write_file g.env.server_dir g.server_files.tls_cert_name keys.server_tls_cert_pem
      >> write_file g.env.server_dir g.server_files.sign_priv_key_name keys.server_rsa_priv_pem
      >> write_file g.env.server_dir g.ca_files.tls_cert_name keys.ca_cert_pem
      >> write_file g.env.client_dir g.ca_files.tls_cert_name keys.ca_cert_pem
      >> write_file g.env.client_dir g.server_files.sign_pub_key_name keys.server_rsa_pub_pem

  module _ (crates : Crates) (show : FilePath → String) where
    unfoldable pub generate_keys_and_distribute : Io KeyGenError (Unit {0})
    unfolding generate_keys create_dirs distribute
    generate_keys_and_distribute =
        lift (generate_keys crates) >>= λ keys. create_dirs >> distribute keys

    -- The configuration that `generate_server_toml` writes.
    unfoldable pub server_config :
        Bool × ℕ → FilePath → FilePath → FilePath → FilePath → Server.Config
    server_config (is_crypto_hardware_accelerated, n_threads) tls_cert tls_priv tss_priv ca_cert =
        record {
          network = record { ip = default_ip; port = 8080 };
          runtime = record {
            working_threads = n_threads;
            cryptography_threads = if is_crypto_hardware_accelerated then 0 else 1;
          };
          keys = record {
            tls_cert_path = show tls_cert;
            tls_priv_path = show tls_priv;
            tss_priv_path = show tss_priv;
            ca_cert_path = show ca_cert;
          };
          synced_time_oracle = some default_synced_time_oracle;
          log = none;
          database_path = none;
        }

    unfoldable pub generate_server_toml :
        Processor → Option ℕ → Option (ℕ × ℕ) → Io TomlGenError (Unit {0})
    unfolding canonicalize write server_config heuristic_working_threads
    generate_server_toml cpu parallelism thread_limits =
        get_canonical_path g.env.server_dir g.server_files.tls_cert_name >>= λ tls_cert.
        get_canonical_path g.env.server_dir g.server_files.tls_key_name >>= λ tls_priv.
        get_canonical_path g.env.server_dir g.server_files.sign_priv_key_name >>= λ tss_priv.
        get_canonical_path g.env.server_dir g.ca_files.tls_cert_name >>= λ ca_cert.
        lift (
          map_err toml_generation (
            crates.server_toml (
              server_config (heuristic_working_threads cpu parallelism thread_limits) tls_cert
                tls_priv tss_priv ca_cert)))
        >>= λ toml. write TomlGenError.io (join_to g.env.server_dir g.server_files.toml_name) toml

    unfoldable pub client_config : FilePath → FilePath → Client.Config
    client_config ca_cert public_key = record {
      timestamp = record {
        server_ip = default_ip;
        server_port = 8080;
        server_certificate_name = default_ip;
        trust_roots_certificates = false;
      };
      keys = record { ca_cert_path = show ca_cert; server_rsa_public_key_path = show public_key };
    }

    unfoldable pub generate_client_toml : Io TomlGenError (Unit {0})
    unfolding canonicalize write client_config
    generate_client_toml =
        get_canonical_path g.env.client_dir g.ca_files.tls_cert_name >>= λ ca_cert.
        get_canonical_path g.env.client_dir g.server_files.sign_pub_key_name >>= λ public_key.
        lift (map_err toml_generation (crates.client_toml (client_config ca_cert public_key)))
        >>= λ toml. write TomlGenError.io (join_to g.env.client_dir g.client_toml) toml

    unfoldable pub ca_config : FilePath → FilePath → Authority.Config
    ca_config ca_cert ca_key = record {
      network = record { ip = default_ip; port = 8081 };
      keys = record { ca_cert_path = show ca_cert; ca_key_path = show ca_key };
    }

    unfoldable pub generate_ca_toml : Io TomlGenError (Unit {0})
    unfolding canonicalize write ca_config
    generate_ca_toml = get_canonical_path g.env.ca_dir g.ca_files.tls_cert_name >>= λ ca_cert.
        get_canonical_path g.env.ca_dir g.ca_files.tls_key_name >>= λ ca_key.
        lift (map_err toml_generation (crates.ca_toml (ca_config ca_cert ca_key))) >>= λ toml.
        write TomlGenError.io (join_to g.env.ca_dir g.ca_files.toml_name) toml

    unfoldable pub generate_tomls : Processor → Option ℕ → Io TomlGenError (Unit {0})
    unfolding generate_server_toml generate_client_toml generate_ca_toml
    generate_tomls cpu parallelism =
        generate_server_toml cpu parallelism none >> generate_client_toml >> generate_ca_toml

    abbrev pub mapped : {E F A : Type 0} → (E → F) → Io E A → Io F A
    mapped f m s = let (r, s') = m s in (map_err f r, s')

    unfoldable pub generate_all : Processor → Option ℕ → Io GenerationError (Unit {0})
    unfolding generate_keys_and_distribute generate_tomls
    generate_all cpu parallelism =
        mapped key_gen generate_keys_and_distribute
        >> mapped toml_gen (generate_tomls cpu parallelism)
