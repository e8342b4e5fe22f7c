-- ===== src/Config/Server.antt =====
-- server/src/config.rs: the configuration of the server, and the context that is made of it.
use stss.Prelude.{
  ℕ, ◌*◌, ◌^◌, ltb, Option, none, some, List, String, Result, ok, err, map_err, ok_or, ◌>>=◌, ◌>>◌,
  str_eq, if◌then◌else◌, ensure, not, ◌==◌,
}
use stss.Net.{from}
use stss.SafeRead.{SafeReadError}
use stss.TimeOracle.{TimeOracleError}
use stss.TimeOracle.Bundle.{Sockets, TimeOracleType, local, synced, new_local, create_bundle}
use stss.Database.Open.{DataBaseLocation, memory, disk}
use stss.Server.{LogDestination, Platform, ServerContext}
use stss.Config.{Reader, pem_ext, read, read_certs}

pub record NetworkConfig : Type 0 where
  pub ip : String
  pub port : ℕ

pub record RuntimeConfig : Type 0 where
  pub working_threads : ℕ
  pub cryptography_threads : ℕ

pub record KeysConfig : Type 0 where
  pub tls_cert_path : String
  pub tls_priv_path : String
  pub tss_priv_path : String
  pub ca_cert_path : String

pub record SyncedTimeOracleConfig : Type 0 where
  pub ntp_server_host : String
  pub ntp_server_port : ℕ
  pub listener_ip : String
  pub listener_port : ℕ
  pub sync_interval_in_minutes : ℕ

pub record Config : Type 0 where
  pub network : NetworkConfig
  pub runtime : RuntimeConfig
  pub keys : KeysConfig
  pub synced_time_oracle : Option SyncedTimeOracleConfig
  pub log : Option String
  pub database_path : Option String

pub data ServerConfigConversionError : Type 0 where
  ip_parse certificate_parse tls_key_parse tss_key_parse : String → ServerConfigConversionError
  tls_key_not_found invalid_file_name unreliable_port too_many_minutes : ServerConfigConversionError
  time_oracle : TimeOracleError → ServerConfigConversionError
  safe_read : SafeReadError → ServerConfigConversionError

-- `rustls_pemfile::certs` and `private_key`, `RsaPrivateKey::from_pkcs8_pem`.
pub record Pem (p : Platform) : Type 0 where
  pub certs : List ℕ → List (Result String p.CertificateDer)
  pub private_key : List ℕ → Result String (Option p.PrivateKeyDer)
  pub from_pkcs8_pem : String → Result String p.externals.crypto.RsaPrivateKey

-- `checked_mul(60)` on `u16`.
unfoldable pub interval_in_seconds : ℕ → Result ServerConfigConversionError ℕ
interval_in_seconds minutes =
    if ltb (minutes * 60) (2 ^ 16) then ok (minutes * 60) else err too_many_minutes

-- The directory of the log file.
abbrev pub log_dir : Option String → String
log_dir none = "."
log_dir (some parent) = if str_eq parent "" then "." else parent

abbrev pub nonzero_port : ℕ → Result ServerConfigConversionError (Unit {0})
nonzero_port n = ensure (not (n == 0)) unreliable_port

unfoldable pub log_destination :
    Reader → Option String → Result ServerConfigConversionError LogDestination
log_destination files none = ok LogDestination.stdout
log_destination files (some path) = do
  filename ← ok_or (files.file_name path) invalid_file_name
  ok (LogDestination.file (log_dir (files.parent path)) filename)

abbrev pub location : Option String → DataBaseLocation
location none = memory
location (some path) = disk path

unfoldable pub time_oracle_type :
    Reader
    → Sockets
    → Option SyncedTimeOracleConfig
    → Result ServerConfigConversionError TimeOracleType
time_oracle_type files net none = ok (local new_local)
time_oracle_type files net (some config) = do
  ip ← map_err ip_parse (files.parse_ip config.listener_ip)
  seconds ← interval_in_seconds config.sync_interval_in_minutes
  bundle ← map_err time_oracle (
      create_bundle net config.ntp_server_host (from config.ntp_server_port)
        (record { ip = ip; port = config.listener_port }) seconds)
  ok (synced bundle)

module _ (p : Platform) (files : Reader) (net : Sockets) (pem : Pem p) where
  unfoldable pub get_ca_certificate :
      Config → Result ServerConfigConversionError (List p.CertificateDer)
  get_ca_certificate config =
      read_certs files pem.certs safe_read certificate_parse config.keys.ca_cert_path

  unfoldable pub read_tls_key : String → Result ServerConfigConversionError p.PrivateKeyDer
  read_tls_key path = do
    bytes ← map_err safe_read (read files path pem_ext)
    key ← map_err tls_key_parse (pem.private_key bytes)
    ok_or key tls_key_not_found

  unfoldable pub read_tss_key :
      String → Result ServerConfigConversionError p.externals.crypto.RsaPrivateKey
  read_tss_key path = do
    bytes ← map_err safe_read (read files path pem_ext)
    pem_str ← map_err tss_key_parse (files.from_utf8 bytes)
    map_err tss_key_parse (pem.from_pkcs8_pem pem_str)

  unfoldable pub to_server_context : Config → Result ServerConfigConversionError (ServerContext p)
  unfolding log_destination read_tls_key read_tss_key time_oracle_type
  to_server_context config = do
    ip ← map_err ip_parse (files.parse_ip config.network.ip)
    nonzero_port config.network.port
    destination ← log_destination files config.log
    tls_certs ← read_certs files pem.certs safe_read certificate_parse config.keys.tls_cert_path
    tls_priv ← read_tls_key config.keys.tls_priv_path
    tss_priv ← read_tss_key config.keys.tss_priv_path
    oracle ← time_oracle_type files net config.synced_time_oracle
    ok (record {
      address = record { ip = ip; port = config.network.port };
      runtime_context = record {
        working_threads = config.runtime.working_threads;
        cryptography_threads = config.runtime.cryptography_threads;
      };
      key_context = record { tls_cert = tls_certs; tls_priv = tls_priv; tss_priv = tss_priv };
      time_oracle_type = oracle;
      log_output = destination;
      database_location = location config.database_path;
    })
