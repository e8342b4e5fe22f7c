-- ===== src/Terraform/Default.antt =====
-- The environment that terraform/src/lib.rs generates, for the server that is started in it: server/src/config.rs
-- and server/src/server.rs.
use stss.Prelude.{
  ℕ, ◌*◌, ◌≡◌, ◌≤◌, ◌↔◌, ◌||◌, ◌⊎◌, inl, inr, refl, arith, ap, ◌∙◌, Bool, true, false, Option, none,
  some, List, [], ◌∷◌, String, ok, err, eq_iff, if◌then◌else◌,
}
use mathlib.Core.Path.{subst⁻¹}
use stss.Protocol.Signing.{returned}
use stss.TimeOracle.Bundle.{Sockets, TimeOracleType, local, synced, TimeSyncWorker}
use stss.Database.Monad.{Sqlite}
use stss.Database.Open.{Columns, IsColumns, DataBaseLocation, memory}
use stss.Database.Open.Checked.{is_new}
use stss.Connection.Types.{Signer, accelerated, slow, contains}
use stss.Server.{Flavor, current_thread, multi_thread, Platform, ServerContext, StsServer}
use stss.Server.Build.{Disk, build_from_context, oracle_parts, database_of}
use stss.Server.Built.{HasThreads, HasSigner, build_from_context-IsBuilt}
use stss.Config.{Reader}
use stss.Config.Server.{Pem, SyncedTimeOracleConfig, to_server_context}
use stss.Config.Configured.{HasOracle, to_server_context-IsConfigured}
use stss.Terraform.{
  Component, FileSystemName, FilePath, EnvironmentGeneratorBuilder, folders_must_be_different, key,
  or_default, default_client_env_subdir, default_server_env_subdir, default_ca_env_subdir,
  has_duplicates, build, Processor, Arch, x86_64, aarch64, other_arch, accelerates,
  is_crypto_hardware_accelerated, ordered_limits, heuristic_working_threads,
}
use stss.Terraform.Generator.{Generator, server_config, default_synced_time_oracle}
use stss.Terraform.Keys.{Crates}

-- The number of threads is between the two limits, in whichever order they are given, or from 2 to 16
-- without limits; the limits that it is clamped to are in order.
pub heuristic_working_threads-bounds :
    (cpu : Processor) (parallelism : Option ℕ) (thread_limits : Option (ℕ × ℕ))
    → let (min, max) = ordered_limits thread_limits in
      (min ≤ max)
      × (min ≤ (heuristic_working_threads cpu parallelism thread_limits).1)
      × ((heuristic_working_threads cpu parallelism thread_limits).1 ≤ max)
unfolding heuristic_working_threads
heuristic_working_threads-bounds cpu parallelism thread_limits = ground arith

abbrev pub folder : (String → List Component) → Option FileSystemName → String → String
folder components given text = key components (or_default given text)

duplicates_iff :
    (a b c : String) → (has_duplicates (a ∷ b ∷ c ∷ []) ≡ true) ↔ ((a ≡ b) ⊎ ((a ≡ c) ⊎ (b ≡ c)))
unfolding has_duplicates contains
duplicates_iff a b c = (
  λ h. ground (arith, h, eq_iff b a, eq_iff c a, eq_iff c b),
  λ h. elim h [
    | inl p ↦ ground (arith, p, eq_iff b a, eq_iff c a, eq_iff c b)
    | inr (inl p) ↦ ground (arith, p, eq_iff b a, eq_iff c a, eq_iff c b)
    | inr (inr p) ↦ ground (arith, p, eq_iff b a, eq_iff c a, eq_iff c b)
  ],
)

refused_iff :
    {A : Type 0} (d : Bool) (a : A)
    → ((if d then err folders_must_be_different else ok a) ≡ err folders_must_be_different)
      ↔ (d ≡ true)
refused_iff true a = (λ h. refl, λ h. refl)
refused_iff false a = (λ h. cc, λ h. cc)

-- An environment is refused exactly if two of its folders are the same, a folder that is not given
-- having its default name.
pub build_refused_iff :
    (components : String → List Component) (b : EnvironmentGeneratorBuilder)
    → let client = folder components b.client_dir default_client_env_subdir in
      let server = folder components b.server_dir default_server_env_subdir in
      let ca = folder components b.ca_dir default_ca_env_subdir in
      (build components b ≡ err folders_must_be_different)
      ↔ ((client ≡ server) ⊎ ((client ≡ ca) ⊎ (server ≡ ca)))
unfolding build
build_refused_iff components b =
    let client = folder components b.client_dir default_client_env_subdir in
    let server = folder components b.server_dir default_server_env_subdir in
    let ca = folder components b.ca_dir default_ca_env_subdir in
    let (to, from) = duplicates_iff client server ca in
    let (refused, refuse) = refused_iff (has_duplicates (client ∷ server ∷ ca ∷ [])) _ in
    (λ h. to (refused h), λ h. refuse (from h))

module _ (p : Platform) (files : Reader) (net : Sockets) (pem : Pem p) (c : Columns) (g : Generator)
    (crates : Crates) (show : FilePath → String) where
  abbrev pub SyncsEvery : ℕ → Option TimeSyncWorker → Type 0
  SyncsEvery seconds none = ⊥
  SyncsEvery seconds (some worker) = worker.sync_interval ≡ seconds

  -- The signer that fits the processor: on x86 one of two extensions for large numbers, on ARM one of two others.
  abbrev pub signer_for : Arch → (String → Bool) → Signer
  signer_for x86_64 detected = if detected "adx" || detected "bmi2" then accelerated else slow
  signer_for aarch64 detected = if detected "neon" || detected "aes" then accelerated else slow
  signer_for other_arch detected = slow

  abbrev pub StartsAsGenerated : Processor → StsServer p → Type 0
  StartsAsGenerated cpu server =
      ((n : ℕ) × (server.runtime.flavor ≡ multi_thread n) × (2 ≤ n) × (n ≤ 16))
      × (server.signer ≡ signer_for cpu.target_arch cpu.is_feature_detected)
      × (server.address.port ≡ 8080)
      × SyncsEvery 300 server.time_oracle_worker
      × (server.state.database.tables.users ≡ [])

  several_threads :
      (n k : ℕ) (f : Flavor)
      → HasThreads k f
      → k ≡ n
      → 2 ≤ n
      → n ≤ 16
      → (m : ℕ) × (f ≡ multi_thread m) × (2 ≤ m) × (m ≤ 16)
  several_threads n k current_thread h e low high = absurd (omega (arith, h, e, low))
  several_threads n k (multi_thread m) h e low high =
      (m, refl, omega (arith, h.0, e, low), omega (arith, h.0, e, high))

  signer_by_hardware :
      (arch : Arch) (detected : String → Bool) (n : ℕ) (s : Signer) (limit : Option ℕ)
      → HasSigner n s limit
      → n ≡ (if accelerates arch detected then 0 else 1)
      → s ≡ signer_for arch detected
  signer_by_hardware x86_64 detected n s limit h e = ground (arith, h, e)
  signer_by_hardware aarch64 detected n s limit h e = ground (arith, h, e)
  signer_by_hardware other_arch detected n s limit h e = ground (arith, h, e)

  syncs :
      (config : SyncedTimeOracleConfig) (t : TimeOracleType) (worker : Option TimeSyncWorker)
      → HasOracle files (some config) t
      → worker ≡ (oracle_parts t).1
      → SyncsEvery (config.sync_interval_in_minutes * 60) worker
  unfolding oracle_parts
  syncs config (local oracle) worker h e = absurd h
  syncs config (synced bundle) worker h e =
      subst⁻¹ (SyncsEvery (config.sync_interval_in_minutes * 60)) e h.4

  in_memory :
      (disk : Disk c) (location : DataBaseLocation) (d : Sqlite)
      → location ≡ memory
      → d ≡ database_of disk (is_new c disk.files location)
      → d.tables.users ≡ []
  in_memory disk memory d e h = ap (λ d. d.tables.users) h
  in_memory disk (DataBaseLocation.disk path) d e h = cc

  -- A server that starts in the generated environment works with 2 to 16 threads; signs on a thread of its own,
  -- unless the processor is an x86_64 with adx or bmi2 or an aarch64 with neon or aes; listens on port 8080;
  -- synchronizes its clock every 300 seconds; and starts with no accounts.
  pub generated_server-StartsAsGenerated :
      (cpu : Processor) (parallelism : Option ℕ) (tls_cert tls_priv tss_priv ca_cert : FilePath)
      (context : ServerContext p) (disk : Disk c) (server : StsServer p)
      → IsColumns c
      → to_server_context p files net pem (
          server_config g crates show
            (heuristic_working_threads cpu parallelism none)
            tls_cert
            tls_priv
            tss_priv
            ca_cert)
        ≡ ok context
      → build_from_context p c context disk ≡ returned (ok server)
      → StartsAsGenerated cpu server
  unfolding server_config heuristic_working_threads is_crypto_hardware_accelerated
  generated_server-StartsAsGenerated cpu parallelism tls_cert tls_priv tss_priv ca_cert context disk
        server law read made =
      let conf = to_server_context-IsConfigured p files net pem _ context read in
      let built = build_from_context-IsBuilt p c context disk server law made in
      let (_, low, high) = heuristic_working_threads-bounds cpu parallelism none in
      (
        several_threads (heuristic_working_threads cpu parallelism none).1
            context.runtime_context.working_threads server.runtime.flavor built.threads conf.working
            low high,
        signer_by_hardware cpu.target_arch cpu.is_feature_detected
            context.runtime_context.cryptography_threads server.signer _ built.signer
            conf.cryptography,
        ap (λ a. a.port) built.listens ∙ conf.port.0,
        syncs default_synced_time_oracle context.time_oracle_type server.time_oracle_worker
            conf.oracle built.clock.0,
        in_memory disk context.database_location server.state.database conf.database built.loaded,
      )
