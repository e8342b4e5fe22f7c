-- ===== src/Config/Client.antt =====
-- client_cli/src/config.rs: the configuration of the command-line client, and the context of the client that
-- is made of it.
use stss.Prelude.{ℕ, Bool, List, String, Result, ok, map_err, ◌>>=◌, ◌>>◌, ensure, not, ◌==◌}
use stss.SafeRead.{SafeReadError}
use stss.Client.{ClientContext, Network}
use stss.Config.{Reader, pem_ext, read, read_certs}

pub data ContextConversionError : Type 0 where
  safe_read : SafeReadError → ContextConversionError
  ip_parse certificate_parse public_key_parse : String → ContextConversionError
  unreliable_port public_key_not_in_utf8 : ContextConversionError

pub record TimestampConfig : Type 0 where
  pub server_ip : String
  pub server_port : ℕ
  pub server_certificate_name : String
  pub trust_roots_certificates : Bool

pub record KeyConfig : Type 0 where
  pub ca_cert_path : String
  pub server_rsa_public_key_path : String

pub record Config : Type 0 where
  pub timestamp : TimestampConfig
  pub keys : KeyConfig

-- `rustls_pemfile::certs` and `RsaPublicKey::from_public_key_pem`.
pub record Pem (net : Network) : Type 0 where
  pub certs : List ℕ → List (Result String net.CertificateDer)
  pub from_public_key_pem : String → Result String net.RsaPublicKey

module _ (net : Network) (files : Reader) (pem : Pem net) where
  unfoldable pub read_public_key : String → Result ContextConversionError net.RsaPublicKey
  read_public_key path = do
    bytes ← map_err safe_read (read files path pem_ext)
    text ← map_err (λ _. public_key_not_in_utf8) (files.from_utf8 bytes)
    map_err public_key_parse (pem.from_public_key_pem text)

  unfoldable pub to_client_context :
      Config → Result ContextConversionError (ClientContext net.CertificateDer net.RsaPublicKey)
  unfolding read_public_key
  to_client_context config = do
    ip ← map_err ip_parse (files.parse_ip config.timestamp.server_ip)
    ensure (not (config.timestamp.server_port == 0)) unreliable_port
    ca_certs ← read_certs files pem.certs safe_read certificate_parse config.keys.ca_cert_path
    server_rsa_public_key ← read_public_key config.keys.server_rsa_public_key_path
    ok (record {
      timestamp = record {
        server_address = record { ip = ip; port = config.timestamp.server_port };
        server_certificate_name = config.timestamp.server_certificate_name;
      };
      keys = record {
        ca_cert = ca_certs;
        server_rsa_public_key = server_rsa_public_key;
        trust_roots_cert = config.timestamp.trust_roots_certificates;
      };
    })
