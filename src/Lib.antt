-- ===== src/Lib.antt =====
-- STSS, a server that sells timestamp signatures: a client buys tokens and spends one for each hash
-- that the server signs together with the current time. The development models the server, its
-- command-line client, the certification authority, and the generator of their environments.
--
-- The parts, and the files that model them:
--
-- shared_library/src/server_protocol.rs: Protocol (the values of the wire protocol),
-- Protocol/Timestamps (`Timestamp` and its big-endian bytes, over Bytes), Protocol/Limits (the
-- limits on credentials), Protocol/Signing (`sign_with_timestamp`, `verify_timestamp_signature`),
-- Protocol/Codec (the message codec). Proofs: Bytes/Order, Protocol/Binding.
--
-- server/src/database.rs: Database/Schema (the tables of `initialize_db`, the SQL statements
-- translated from their text, the error types), Database/Monad (statements that may fail,
-- transactions), Database (the methods of `ServerDataBase`), Database/Open
-- (`ServerDataBaseBuilder`: opening, and the validation of an existing file). Proofs:
-- Database/Rows, Tokens, Accounts, Records, History, Recall, Open/Checked, and Invariant and Safety
-- for the schema's invariant.
--
-- server/src/time_oracle.rs: TimeOracle (`compute_offset`, `time_now`), TimeOracle/Bundle
-- (`create_bundle`), TimeOracle/Worker (`start_syncing`). Proofs: TimeOracle/Sync, and in Bundle
-- and Worker.
--
-- server/src/connection_handler.rs: Connection/Types (state, sessions, errors), Connection (what a
-- guest can ask), Connection/Requests (what a session can ask), Connection/Handler (the loops of
-- `conn_handler_core` and `session_handler`, one round at a time), Connection/Text (the texts of
-- its errors). The two signers stand in server/src/server.rs. Connection/World puts connections
-- side by side, over one shared state. Proofs: Connection/Access, Accounting, SignHash, Delivery,
-- Refund, Locks, Exclusion, Exit and Validity.
--
-- server/src/server.rs: Server (contexts, instances, errors), Server/Build (`build_from_context`),
-- Server/Accept (`run_with_signal` and `accept_loop`: the listener, the tasks, the handshakes, the
-- shutdown), Net (`NetworkPort`). Proofs: Server/Built, Verdicts and Refinement (to
-- Connection/World), Tasks and Shutdown.
--
-- server/src/config.rs, client_cli/src/config.rs, certification_authority/src/config.rs: Config
-- (what they share), Config/Server, Config/Client, Config/Authority. Proof: Config/Configured.
--
-- client_core/src/client.rs: Client (`STSSClient`), and Client/Exchange (a client at a connection
-- of the server). client_core/src/file_hasher.rs: FileHasher, with its proof.
-- client_cli/src/main.rs: Cli (the menu and its requests), Cli/Print (replies, messages, files),
-- Cli/Times (dates), Cli/Link (the menu loop with its connection at the server). Proofs:
-- Cli/Replies, Exchanges, Steps and Agreement, Cli/Proof, and in Cli/Times.
--
-- shared_library/src/ca_protocol.rs: Authority/Messages.
-- certification_authority/src/small_server.rs: Authority, with Authority/Replies.
-- server/src/rekey.rs: Authority/Rekey.
--
-- terraform/src/lib.rs: Terraform (names, folders, threads), Terraform/Files (the file system: a
-- directory is made and a file written only inside a directory that is there), Terraform/Keys (keys
-- and certificates), Terraform/Generator (the files). Proofs: Terraform/Quiet, Terraform/Fresh,
-- Terraform/Complete, Terraform/Existing, Terraform/Default.
--
-- shared_library/src/safe_read.rs: SafeRead (opening, chunks, the full read). Proofs:
-- SafeRead/Chunks and Total.
--
-- Prelude and its children hold what the modules share; Tests and its children the concrete
-- parameters and inputs.
--
-- How the parts interact: terraform writes the configurations that the three programs read; a
-- configuration becomes a context, and a context a server. The accept loop spawns a task for each
-- connection. A round of a connection polls a request, calls the database, the clock and the
-- signer, and sends a response. The state that all connections share is the record
-- `StsServerState`: the database, the cancellation flag, the set of logged names and the clock's
-- offset. What happens to the loop is a list: accepted connections, ends of handshakes, rounds,
-- signals, new offsets. A round is one step of the model; the connections interleave between
-- rounds. A client's request is a frame that the server polls, and what the server sends in that
-- round is what the client's stream yields. The renewal of a certificate is a request to the
-- authority's handler in the same way.
--
-- Parameters: the crates `rsa` and `sha2` (records `Crypto` and `Hasher`), `argon2`
-- (`PasswordHasher`), `wincode` (`Codec`, `CaCodec`), `rcgen` (`Rcgen`, `CsrBuilder`, `Crates`),
-- `chrono` (`Calendar`), `hex`, `toml` and `rustls`; the resolver, sockets, files and paths
-- (`Sockets`, `Reader`, `Platform`, `Network`). Laws that they document are the records
-- `IsKeyPair`, `IsPasswordHasher`, `IsHasher`, `IsCodec`, `IsCaCodec`, `IsCalendar`, and
-- `IsColumns`: how `sqlx` reads a stored integer as an `i32` and SQL compares it. What the
-- environment decides is data: the list `faults` of the database says which statements fail, a
-- `Round` carries what is polled, the salt, the local clock and how sending goes, `Answers` is what
-- a database file answers. A transaction of SQLite is serializable, so it is one step; it is rolled
-- back when one of its statements, the commit included, fails.
--
-- Numbers: `u64` and `u128` are natural numbers, `i64` and `i128` are integers with the checked,
-- wrapping and saturating operations of the source written out; conversions keep their bounds. The
-- loops of the full read and of the file hasher run on fuel, one more than the bytes of the limit,
-- because each chunk that is not empty takes at least one byte off the limit; the configurations
-- are read by the version without fuel of SafeRead/Total. All other loops are recursions on the
-- list of what comes in.
--
-- Not modelled: logging, the command lines, the drawing of prompts and of the history table, the
-- bytes of TLS and of the message frames with their limits of length.
pub mod Prelude
pub mod Bytes
pub mod Net
pub mod Protocol
pub mod Database
pub mod TimeOracle
pub mod Connection
pub mod SafeRead
pub mod FileHasher
pub mod Server
pub mod Config
pub mod Client
pub mod Cli
pub mod Authority
pub mod Terraform
pub mod Tests
