-- ===== src/Server.antt =====
-- server/src/server.rs: the context of a server, the instance that is built from it, and the errors.
-- The crates `rustls`, `tokio` and `tracing` are the environment's.
pub mod Build
pub mod Built
pub mod Accept
pub mod Verdicts
pub mod Refinement
pub mod Tasks
pub mod Shutdown
use stss.Prelude.{ℕ, Bool, Option, List, String, Result}
use stss.Net.{SocketAddr}
use stss.TimeOracle.Bundle.{TimeOracleType, TimeSyncWorker}
use stss.Database.Open.{DataBaseLocation, DataBaseBuildError}
use stss.Connection.Types.{Externals, Signer, StsServerState}

pub data LogDestination : Type 0 where
  none stdout : LogDestination
  file : String → String → LogDestination

pub record RuntimeContext : Type 0 where
  pub working_threads : ℕ
  pub cryptography_threads : ℕ

pub data Flavor : Type 0 where
  current_thread : Flavor
  multi_thread : ℕ → Flavor

-- A runtime of `tokio`, by what its builder was told.
pub record Runtime : Type 0 where
  pub flavor : Flavor
  pub max_blocking_threads : Option ℕ

-- The crates of the handlers; certificates and TLS keys, `ServerConfig::with_single_cert`, `try_init` of the subscriber, and whether
-- the builder of the runtime succeeds.
pub record Platform : Type 1 where
  pub CertificateDer : Type 0
  pub PrivateKeyDer : Type 0
  pub TlsAcceptor : Type 0
  pub externals : Externals
  pub with_single_cert : List CertificateDer → PrivateKeyDer → Result String TlsAcceptor
  pub try_init : LogDestination → Result String (Unit {0})
  pub can_build : Runtime → Bool

module _ (p : Platform) where
  open p use {CertificateDer, PrivateKeyDer, externals, TlsAcceptor}

  pub record KeyContext : Type 0 where
    pub tls_cert : List CertificateDer
    pub tls_priv : PrivateKeyDer
    pub tss_priv : externals.crypto.RsaPrivateKey

  pub record ServerContext : Type 0 where
    pub address : SocketAddr
    pub runtime_context : RuntimeContext
    pub key_context : KeyContext
    pub time_oracle_type : TimeOracleType
    pub log_output : LogDestination
    pub database_location : DataBaseLocation

  -- `STSServer` and `STSServerInstance`: the signer says which of the two variants it is.
  pub record StsServer : Type 0 where
    pub signer : Signer
    pub address : SocketAddr
    pub runtime : Runtime
    pub tls_acceptor : TlsAcceptor
    pub signing_key : externals.crypto.RsaPrivateKey
    pub state : StsServerState
    pub time_oracle_worker : Option TimeSyncWorker

pub data StsServerBuildError : Type 0 where
  zero_working_threads : StsServerBuildError
  tls_setup logger : String → StsServerBuildError
  data_base : DataBaseBuildError → StsServerBuildError

pub data StsServerRunError : Type 0 where
  tls_setup : String → StsServerRunError
  port_already_in_use permission_denied : ℕ → StsServerRunError
  addr_not_available : SocketAddr → StsServerRunError
  generic_bind connection_aborted generic_accept : String → StsServerRunError
