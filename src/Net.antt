-- ===== src/Net.antt =====
-- Addresses and ports: `SocketAddr` of Rust's standard library, with the text of the `IpAddr`, and
-- `NetworkPort` of server/src/server.rs.
use stss.Prelude.{ℕ, zero, suc, String}

pub record SocketAddr : Type 0 where
  pub ip : String
  pub port : ℕ

pub data NetworkPort : Type 0 where
  any_free_port : NetworkPort
  -- `NonZero<u16>`
  port : ℕ → NetworkPort

unfoldable pub from : ℕ → NetworkPort
from zero = any_free_port
from (suc n) = port (suc n)

unfoldable pub get : NetworkPort → ℕ
get any_free_port = 0
get (port p) = p
