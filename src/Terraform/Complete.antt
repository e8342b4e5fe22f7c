-- ===== src/Terraform/Complete.antt =====
-- `generate_all` of terraform/src/lib.rs where nothing is in its way.
use stss.Prelude.{ℕ, ◌≡◌, Option, none, List, ◌∷◌, String, ok}
use stss.Config.Server
use stss.Config.Client
use stss.Config.Authority
use stss.Terraform.{FilePath, Processor, join_to, heuristic_working_threads}
use stss.Terraform.Files.{Mount}
use stss.Terraform.Keys.{Crates, Keys}
use stss.Terraform.Fresh.{Layout, generator_of, key_files}
use stss.Terraform.Generator.{Generator, server_config, client_config, ca_config}

module _ (l : Layout) (crates : Crates) (show : FilePath → String) (mount : Mount) where
  abbrev g : Generator
  g = generator_of l

  abbrev pub client_settings : Client.Config
  client_settings =
      client_config g crates show
        (mount.resolve (join_to g.env.client_dir g.ca_files.tls_cert_name))
        (mount.resolve (join_to g.env.client_dir g.server_files.sign_pub_key_name))

  abbrev pub ca_settings : Authority.Config
  ca_settings =
      ca_config g crates show (mount.resolve (join_to g.env.ca_dir g.ca_files.tls_cert_name))
        (mount.resolve (join_to g.env.ca_dir g.ca_files.tls_key_name))

  -- The configurations, and the paths that they name.
  module _ (cpu : Processor) (parallelism : Option ℕ) where
    abbrev pub server_settings : Server.Config
    server_settings =
        server_config g crates show (heuristic_working_threads cpu parallelism none)
          (mount.resolve (join_to g.env.server_dir g.server_files.tls_cert_name))
          (mount.resolve (join_to g.env.server_dir g.server_files.tls_key_name))
          (mount.resolve (join_to g.env.server_dir g.server_files.sign_priv_key_name))
          (mount.resolve (join_to g.env.server_dir g.ca_files.tls_cert_name))

  module _ (cpu : Processor) (parallelism : Option ℕ) where
    -- What the crate `toml` makes of the three configurations.
    pub record Tomls : Type 0 where
      pub server_toml : String
      pub client_toml : String
      pub ca_toml : String
      pub server_printed : crates.server_toml (server_settings cpu parallelism) ≡ ok server_toml
      pub client_printed : crates.client_toml client_settings ≡ ok client_toml
      pub ca_printed : crates.ca_toml ca_settings ≡ ok ca_toml

    -- The eleven files, the last one first.
    abbrev pub all_files : Keys → Tomls → List (FilePath × String) → List (FilePath × String)
    all_files keys t files =
        (join_to g.env.ca_dir g.ca_files.toml_name, t.ca_toml)
        ∷ (join_to g.env.client_dir g.client_toml, t.client_toml)
        ∷ (join_to g.env.server_dir g.server_files.toml_name, t.server_toml)
        ∷ key_files l crates show mount keys files
