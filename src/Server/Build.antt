-- ===== src/Server/Build.antt =====
-- `STSServer::build_from_context` of server/src/server.rs, with the state that
-- `STSServerStateBuilder` of server/src/connection_handler.rs makes for it.
use stss.Prelude.{
  ℕ, zero, suc, Bool, true, false, Option, none, some, [], String, Result, ok, err, map_err, ◌>>=◌,
  ◌>>◌, if◌then◌else◌, ltb,
}
use stss.Protocol.Signing.{Outcome, returned, panicked}
use stss.TimeOracle.Bundle.{TimeOracle, TimeSyncWorker, TimeOracleType, local, synced, into_parts}
use stss.Database.Monad.{Sqlite}
use stss.Database.Open.{Columns, FileSystem, Answers, DataBaseLocation, DataBaseBuildError, build}
use stss.Connection.Types.{Signer, accelerated, slow, StsServerState}
use stss.Server.{
  LogDestination, Runtime, Flavor, current_thread, multi_thread, Platform, ServerContext, StsServer,
  StsServerBuildError, zero_working_threads, tls_setup, logger, data_base,
}

-- What the file system and the opened database answer, and what an existing database holds.
pub record Disk (c : Columns) : Type 0 where
  pub files : FileSystem
  pub answers : Answers c
  pub stored : Sqlite

abbrev pub set_up_log :
    (LogDestination → Result String (Unit {0}))
    → LogDestination
    → Result StsServerBuildError (Unit {0})
set_up_log try_init LogDestination.none = ok tt
set_up_log try_init destination = map_err logger (try_init destination)

abbrev pub flavor : ℕ → Result StsServerBuildError Flavor
flavor zero = err zero_working_threads
flavor (suc zero) = ok current_thread
flavor (suc (suc n)) = ok (multi_thread (suc (suc n)))

-- `cryptography_threads > 0`
abbrev pub do_not_use_hardware_acceleration : ℕ → Bool
do_not_use_hardware_acceleration n = ltb 0 n

abbrev pub blocking_threads : ℕ → Option ℕ
blocking_threads n = if do_not_use_hardware_acceleration n then some n else none

unfoldable pub oracle_parts : TimeOracleType → TimeOracle × Option TimeSyncWorker
unfolding into_parts
oracle_parts (local oracle) = (oracle, none)
oracle_parts (synced bundle) = let (oracle, worker) = into_parts bundle in (oracle, some worker)

-- A new database has both tables, without rows.
abbrev pub database_of : {c : Columns} → Disk c → Bool → Sqlite
database_of disk true = record {
  tables = record { users = []; history = [] };
  faults = disk.stored.faults;
}
database_of disk false = disk.stored

-- `ServerDataBaseBuilder::build(database_location)`
unfoldable pub open_database :
    (c : Columns) → Disk c → DataBaseLocation → Result DataBaseBuildError Sqlite
open_database c disk location =
    build c disk.files location disk.answers >>= λ is_new. ok (database_of disk is_new)

-- `from_bundle`, with a token that is not cancelled.
unfoldable pub from_bundle : Sqlite → TimeOracle → StsServerState
from_bundle database time_oracle = record {
  database = database;
  cancelled = false;
  logged_users = [];
  offset_nanos = time_oracle.offset_nanos;
}

unfoldable pub signer_of : ℕ → Signer
signer_of n = if do_not_use_hardware_acceleration n then slow else accelerated

module _ (p : Platform) (c : Columns) where
  -- The logger and the threads of the runtime.
  unfoldable pub set_up : ServerContext p → Result StsServerBuildError Runtime
  set_up context = do
    set_up_log p.try_init context.log_output
    f ← flavor context.runtime_context.working_threads
    ok (record {
      flavor = f;
      max_blocking_threads = blocking_threads context.runtime_context.cryptography_threads;
    })

  -- The rest, on the runtime.
  unfoldable pub on_runtime :
      ServerContext p → Disk c → Runtime → Result StsServerBuildError (StsServer p)
  unfolding open_database from_bundle signer_of oracle_parts
  on_runtime context disk rt = do
    acceptor ←
        map_err tls_setup
          (p.with_single_cert context.key_context.tls_cert context.key_context.tls_priv)
    database ← map_err data_base (open_database c disk context.database_location)
    ok (record {
      signer = signer_of context.runtime_context.cryptography_threads;
      address = context.address;
      runtime = rt;
      tls_acceptor = acceptor;
      signing_key = context.key_context.tss_priv;
      state = from_bundle database (oracle_parts context.time_oracle_type).0;
      time_oracle_worker = (oracle_parts context.time_oracle_type).1;
    })

  -- `expect` on the runtime.
  unfoldable pub expect_runtime :
      ServerContext p
      → Disk c
      → Result StsServerBuildError Runtime
      → Outcome (Result StsServerBuildError (StsServer p))
  unfolding on_runtime
  expect_runtime context disk (err e) = returned (err e)
  expect_runtime context disk (ok rt) =
      if p.can_build rt then returned (on_runtime context disk rt) else panicked

  unfoldable pub build_from_context :
      ServerContext p → Disk c → Outcome (Result StsServerBuildError (StsServer p))
  unfolding set_up expect_runtime
  build_from_context context disk = expect_runtime context disk (set_up context)
