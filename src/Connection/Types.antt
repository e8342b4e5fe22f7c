-- ===== src/Connection/Types.antt =====
-- The types of server/src/connection_handler.rs and `Signer` of server/src/server.rs: the shared
-- state, the sessions, the errors, and what the environment brings to one round of a connection.
use stss.Prelude.{
  ℕ, Bool, true, false, Option, List, [], ◌∷◌, String, Result, ℤ, str_eq, if◌then◌else◌,
}
pub use stss.Net.{SocketAddr}
use stss.Protocol.Signing.{Crypto}
use stss.Protocol.Codec.{Codec}
use stss.Database.{PasswordHasher}
use stss.Database.Schema.{InternalDataBaseError}
use stss.Database.Monad.{Sqlite}

-- `std::io::ErrorKind`, as far as the server looks at it.
pub data ErrorKind : Type 0 where
  broken_pipe connection_reset connection_aborted timed_out network_down : ErrorKind
  unexpected_eof invalid_data other_kind : ErrorKind
  addr_in_use permission_denied addr_not_available : ErrorKind

pub record IoError : Type 0 where
  pub kind : ErrorKind
  pub text : String

pub data ClosedStreamReason : Type 0 where
  interrupt_received client_asked : ClosedStreamReason

pub data ClosedSessionReason : Type 0 where
  closed_stream : ClosedStreamReason → ClosedSessionReason
  logged_out : ClosedSessionReason

pub data FramingError : Type 0 where
  size_smashing : SocketAddr → ℕ → FramingError
  generic : SocketAddr → String → FramingError

pub data NetworkError : Type 0 where
  connection_dropped : NetworkError
  server_network_down : NetworkError
  generic : IoError → NetworkError
  framing : SocketAddr → FramingError → NetworkError
  deserialize : String → NetworkError

pub data InternalError : Type 0 where
  database : InternalDataBaseError → InternalError
  user_should_exist_but_was_not_found : InternalError
  clock_staggered : InternalError
  integrity_violation : String → InternalError
  serialize : String → InternalError

pub data HandlerError : Type 0 where
  network : NetworkError → HandlerError
  domain : Option String → InternalError → HandlerError

pub record Session : Type 0 where
  pub address : SocketAddr
  pub username : String

-- `SignError`; a `JoinError` is what `spawn_blocking` reports of a task that did not finish.
pub data SignError : Type 0 where
  crypto : String → SignError
  thread_panic : SignError

pub data Signer : Type 0 where
  accelerated slow : Signer

-- The third-party code that the handlers call.
pub record Externals : Type 1 where
  pub crypto : Crypto
  pub codec : Codec
  pub hasher : PasswordHasher
  pub hex_encode : List ℕ → String
  pub max_frame_length : ℕ

-- `STSServerState` without the signing key and the signer, which never change: what all connections
-- share. `offset_nanos` is the offset of the time oracle.
pub record StsServerState : Type 0 where
  pub database : Sqlite
  pub cancelled : Bool
  pub logged_users : List String
  pub offset_nanos : ℤ

-- `tokio::select!` of `fetch_next_request`: the token is cancelled, or the stream yields an item.
pub data Polled : Type 0 where
  token_cancelled : Polled
  stream_ended : Polled
  stream_failed : IoError → Polled
  frame : List ℕ → Polled

-- One turn of a connection's loop: what is polled, the salt for a registration, the local clock, whether
-- the signing task can be joined, and how sending the response goes.
pub record Round : Type 0 where
  pub polled : Polled
  pub salt : String
  pub local_now : ℤ
  pub joined : Bool
  pub send : Result IoError (Unit {0})

-- `DashSet`
unfoldable pub contains : String → List String → Bool
contains name [] = false
contains name (u ∷ us) = if str_eq u name then true else contains name us

unfoldable pub remove : String → List String → List String
remove name [] = []
remove name (u ∷ us) = let rest = remove name us in if str_eq u name then rest else u ∷ rest

-- `DashSet::insert`: whether the name is new, and the set with it.
unfoldable pub insert : String → List String → Bool × List String
insert name users = if contains name users then (false, users) else (true, name ∷ users)
