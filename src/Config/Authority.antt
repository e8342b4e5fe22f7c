-- ===== src/Config/Authority.antt =====
-- certification_authority/src/config.rs: the configuration of the certification authority, and the context
-- that is made of it.
use stss.Prelude.{ℕ, List, String, Result, ok, err, map_err, ◌>>=◌}
use stss.Net.{SocketAddr, NetworkPort, any_free_port, port, from}
use stss.SafeRead.{SafeReadError}
use stss.Config.{Reader, pem_ext, read}

pub record NetworkConfig : Type 0 where
  pub ip : String
  pub port : ℕ

pub record KeyConfig : Type 0 where
  pub ca_cert_path : String
  pub ca_key_path : String

pub record Config : Type 0 where
  pub network : NetworkConfig
  pub keys : KeyConfig

pub record CaContext : Type 0 where
  pub address : SocketAddr
  pub ca_cert_pem : List ℕ
  pub ca_key_pem : List ℕ

pub data ContextConversionError : Type 0 where
  safe_read : SafeReadError → ContextConversionError
  invalid_ip : String → ContextConversionError
  invalid_port : ContextConversionError

-- `NonZeroU16::new(…).ok_or(…)`
abbrev pub nonzero_u16 : NetworkPort → Result ContextConversionError ℕ
nonzero_u16 any_free_port = err invalid_port
nonzero_u16 (port n) = ok n

unfoldable pub convert_to_context : Reader → Config → Result ContextConversionError CaContext
convert_to_context files config = do
  ip ← map_err invalid_ip (files.parse_ip config.network.ip)
  n ← nonzero_u16 (from config.network.port)
  ca_cert_pem ← map_err safe_read (read files config.keys.ca_cert_path pem_ext)
  ca_key_pem ← map_err safe_read (read files config.keys.ca_key_path pem_ext)
  ok (record {
    address = record { ip = ip; port = n };
    ca_cert_pem = ca_cert_pem;
    ca_key_pem = ca_key_pem;
  })
