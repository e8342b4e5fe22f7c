-- ===== src/TimeOracle/Bundle.antt =====
-- `TimeOracle::new_local` and `TimeOracle::create_bundle` of server/src/time_oracle.rs. The resolver
-- and the UDP socket of the standard library are the environment's.
use Prim.Native.String.{◌++◌}
use stss.Prelude.{
  ℕ, ◌≡◌, ◌≢◌, Option, none, some, List, [], ◌∷◌, String, Result, ok, err, map_err, ok_or, ◌>>=◌,
  ◌>>◌, ℤ, pos, show_u16, >>=_inverse, arith,
}
use stss.Net.{SocketAddr, NetworkPort, any_free_port, port}
use stss.TimeOracle.{
  TimeOracleError, socket_set_non_blocking, listener_error, no_dns_address, no_address_specified,
  unreliable_port,
}

-- `ToSocketAddrs`, `UdpSocket::bind` and `set_nonblocking`.
pub record Sockets : Type 0 where
  pub to_socket_addrs : String → ℕ → Result String (List SocketAddr)
  pub bind : SocketAddr → Result String (Unit {0})
  pub set_nonblocking : Result String (Unit {0})

-- `TimeOracle`: the stored offset.
pub record TimeOracle : Type 0 where
  pub offset_nanos : ℤ

-- `TimeSyncWorker`; the interval in seconds.
pub record TimeSyncWorker : Type 0 where
  pub ntp_server_addr : SocketAddr
  pub listener : SocketAddr
  pub sync_interval : ℕ

pub record TimeOracleBundle : Type 0 where
  pub oracle : TimeOracle
  pub worker : TimeSyncWorker

pub data TimeOracleType : Type 0 where
  local : TimeOracle → TimeOracleType
  synced : TimeOracleBundle → TimeOracleType

abbrev pub new_local : TimeOracle
new_local = record { offset_nanos = pos 0 }

unfoldable pub into_parts : TimeOracleBundle → TimeOracle × TimeSyncWorker
into_parts bundle = (bundle.oracle, bundle.worker)

abbrev pub first : {A : Type 0} → List A → Option A
first [] = none
first (x ∷ xs) = some x

abbrev pub fixed_port : NetworkPort → Result TimeOracleError ℕ
fixed_port any_free_port = err unreliable_port
fixed_port (port p) = ok p

abbrev pub host_text : String → ℕ → String
host_text host p = host ++ ":" ++ show_u16 p

unfoldable pub create_bundle :
    Sockets → String → NetworkPort → SocketAddr → ℕ → Result TimeOracleError TimeOracleBundle
create_bundle net ntp_server_host ntp_server_port listener_address sync_interval = do
  p ← fixed_port ntp_server_port
  addrs ←
      map_err (no_dns_address (host_text ntp_server_host p)) (net.to_socket_addrs ntp_server_host p)
  ntp_server_addr ← ok_or (first addrs) (no_address_specified (host_text ntp_server_host p))
  map_err (listener_error listener_address) (net.bind listener_address)
  map_err socket_set_non_blocking net.set_nonblocking
  ok (record {
    oracle = new_local;
    worker = record {
      ntp_server_addr = ntp_server_addr;
      listener = listener_address;
      sync_interval = sync_interval;
    };
  })

-- A bundle starts with the offset zero, listens on the given address and keeps the interval; its NTP
-- port was not zero.
pub create_bundle_inverse :
    (net : Sockets) (host : String) (p : NetworkPort) (listener : SocketAddr) (interval : ℕ)
    (bundle : TimeOracleBundle)
    → create_bundle net host p listener interval ≡ ok bundle
    → (p ≢ any_free_port)
      × (bundle.oracle ≡ new_local)
      × (bundle.worker.listener ≡ listener)
      × (bundle.worker.sync_interval ≡ interval)
unfolding create_bundle
create_bundle_inverse net host any_free_port listener interval bundle h = cc
create_bundle_inverse net host (port p) listener interval bundle h =
    let (addrs, _, h1) =
      >>=_inverse (map_err (no_dns_address (host_text host p)) (net.to_socket_addrs host p)) _ h in
    let (addr, _, h2) =
      >>=_inverse (ok_or (first addrs) (no_address_specified (host_text host p))) _ h1 in
    let (_, _, h3) = >>=_inverse (map_err (listener_error listener) (net.bind listener)) _ h2 in
    let (_, _, h4) = >>=_inverse (map_err socket_set_non_blocking net.set_nonblocking) _ h3 in
    ground arith
