-- ===== src/Config/Configured.antt =====
-- What holds of the context that `Config::to_server_context` of server/src/config.rs returns.
use stss.Prelude.{
  ℕ, zero, suc, ◌*◌, ◌^◌, ◌<◌, Option, none, some, String, ok, map_err, ok_or, ◌≡◌, ◌≢◌, refl,
  arith, ap, sym, ◌∙◌, >>=_inverse, map_err_inverse, ok_injective, ok_or_inverse,
}
use mathlib.Core.Path.{subst}
use stss.Net.{SocketAddr, from, any_free_port}
use stss.TimeOracle.Bundle.{
  Sockets, TimeOracleType, local, synced, new_local, create_bundle, create_bundle_inverse,
}
use stss.Server.{LogDestination, Platform, ServerContext}
use stss.Config.{Reader, read_certs}
use stss.Config.Server.{
  Config, SyncedTimeOracleConfig, ip_parse, invalid_file_name, certificate_parse, time_oracle,
  safe_read, Pem, interval_in_seconds, log_dir, nonzero_port, log_destination, location,
  time_oracle_type, read_tls_key, read_tss_key, to_server_context,
}

-- Logs go to the standard output, or to the file of this name in the directory of its path.
abbrev pub LogsTo : Reader → Option String → LogDestination → Type 0
LogsTo files none destination = destination ≡ LogDestination.stdout
LogsTo files (some path) destination =
    (name : String) × (files.file_name path ≡ some name)
    × (destination ≡ LogDestination.file (log_dir (files.parent path)) name)

-- The local clock, or a bundle whose worker listens on the configured address and waits the configured
-- minutes, in seconds, which fit into 16 bits.
abbrev pub HasOracle : Reader → Option SyncedTimeOracleConfig → TimeOracleType → Type 0
HasOracle files none oracle = oracle ≡ local new_local
HasOracle files (some config) (local oracle) = ⊥
HasOracle files (some config) (synced bundle) =
    (bundle.oracle ≡ new_local)
    × (config.ntp_server_port ≢ 0)
    × (files.parse_ip config.listener_ip ≡ ok bundle.worker.listener.ip)
    × (bundle.worker.listener.port ≡ config.listener_port)
    × (bundle.worker.sync_interval ≡ config.sync_interval_in_minutes * 60)
    × (bundle.worker.sync_interval < 2 ^ 16)

log_destination-LogsTo :
    (files : Reader) (log : Option String) (destination : LogDestination)
    → log_destination files log ≡ ok destination
    → LogsTo files log destination
unfolding log_destination
log_destination-LogsTo files none destination h = sym (ok_injective h)
log_destination-LogsTo files (some path) destination h =
    let (name, named, made) = >>=_inverse (ok_or (files.file_name path) invalid_file_name) _ h in
    (name, ok_or_inverse (files.file_name path) invalid_file_name named, sym (ok_injective made))

nonzero_port_inverse : (n : ℕ) → nonzero_port n ≡ ok tt → n ≢ 0
nonzero_port_inverse n h = λ p. ground (arith, p)

interval_inverse :
    (minutes seconds : ℕ)
    → interval_in_seconds minutes ≡ ok seconds
    → (seconds ≡ minutes * 60) × (seconds < 2 ^ 16)
unfolding interval_in_seconds
interval_inverse minutes seconds h = ground arith

from_zero : (n : ℕ) → from n ≢ any_free_port → n ≢ 0
unfolding from
from_zero zero h = absurd (h refl)
from_zero (suc n) h = λ p. omega (arith, p)

time_oracle_type-HasOracle :
    (files : Reader) (net : Sockets) (config : Option SyncedTimeOracleConfig)
    (oracle : TimeOracleType)
    → time_oracle_type files net config ≡ ok oracle
    → HasOracle files config oracle
unfolding time_oracle_type
time_oracle_type-HasOracle files net none oracle h = sym (ok_injective h)
time_oracle_type-HasOracle files net (some config) oracle h =
    let (ip, parsed, h1) = >>=_inverse (map_err ip_parse (files.parse_ip config.listener_ip)) _ h in
    let (seconds, fits, h2) =
      >>=_inverse (interval_in_seconds config.sync_interval_in_minutes) _ h1 in
    let listener : SocketAddr = record { ip = ip; port = config.listener_port } in
    let (bundle, made, h3) =
      >>=_inverse
        (map_err time_oracle
          (create_bundle net config.ntp_server_host (from config.ntp_server_port) listener seconds))
        _ h2 in
    let (reliable, zeroed, listens, waits) =
      create_bundle_inverse net config.ntp_server_host (from config.ntp_server_port) listener
        seconds bundle (map_err_inverse time_oracle _ made) in
    let (minutes, bounded) = interval_inverse config.sync_interval_in_minutes seconds fits in
    subst (HasOracle files (some config)) (ok_injective h3) (
      zeroed,
      from_zero config.ntp_server_port reliable,
      map_err_inverse ip_parse _ parsed ∙ ap (λ a. ok a.ip) (sym listens),
      ap (λ a. a.port) listens,
      waits ∙ minutes,
      rw waits bounded,
    )

module _ (p : Platform) (files : Reader) (net : Sockets) (pem : Pem p) where
  pub record IsConfigured (config : Config) (context : ServerContext p) : Type 0 where
    pub ip : files.parse_ip config.network.ip ≡ ok context.address.ip
    pub port : (context.address.port ≡ config.network.port) × (config.network.port ≢ 0)
    pub working : context.runtime_context.working_threads ≡ config.runtime.working_threads
    pub cryptography :
        context.runtime_context.cryptography_threads ≡ config.runtime.cryptography_threads
    pub certificates :
        read_certs files pem.certs safe_read certificate_parse config.keys.tls_cert_path
        ≡ ok context.key_context.tls_cert
    pub tls_key :
        read_tls_key p files net pem config.keys.tls_priv_path ≡ ok context.key_context.tls_priv
    pub signing_key :
        read_tss_key p files net pem config.keys.tss_priv_path ≡ ok context.key_context.tss_priv
    pub oracle : HasOracle files config.synced_time_oracle context.time_oracle_type
    pub logs : LogsTo files config.log context.log_output
    pub database : context.database_location ≡ location config.database_path

  pub to_server_context-IsConfigured :
      (config : Config) (context : ServerContext p)
      → to_server_context p files net pem config ≡ ok context
      → IsConfigured config context
  unfolding to_server_context
  to_server_context-IsConfigured config context h =
      let (ip, parsed, h1) =
        >>=_inverse (map_err ip_parse (files.parse_ip config.network.ip)) _ h in
      let (_, fixed, h2) = >>=_inverse (nonzero_port config.network.port) _ h1 in
      let (destination, logged, h3) = >>=_inverse (log_destination files config.log) _ h2 in
      let (certs, certified, h4) =
        >>=_inverse
          (read_certs files pem.certs safe_read certificate_parse config.keys.tls_cert_path) _ h3 in
      let (tls, h5a, h5) =
        >>=_inverse (read_tls_key p files net pem config.keys.tls_priv_path) _ h4 in
      let (tss, h6a, h6) =
        >>=_inverse (read_tss_key p files net pem config.keys.tss_priv_path) _ h5 in
      let (oracle, timed, h7) =
        >>=_inverse (time_oracle_type files net config.synced_time_oracle) _ h6 in
      let nonzero = nonzero_port_inverse config.network.port fixed in
      subst (IsConfigured config) (ok_injective h7) (record {
        ip = map_err_inverse ip_parse _ parsed;
        port = (refl, nonzero);
        working = refl;
        cryptography = refl;
        certificates = certified;
        tls_key = h5a;
        signing_key = h6a;
        oracle = time_oracle_type-HasOracle files net config.synced_time_oracle oracle timed;
        logs = log_destination-LogsTo files config.log destination logged;
        database = refl;
      })
