-- ===== src/Client.antt =====
-- client_core/src/client.rs: the connection of a client, its requests and their errors. Names, TLS and TCP
-- are the environment's, the wire format is the crate's.
pub mod Exchange
use stss.Prelude.{
  ℕ, Bool, Option, none, some, List, ◌++◌, [], String, Result, ok, err, map_err, ok_or, ◌>>=◌, ◌>>◌,
  if◌then◌else◌,
}
use stss.Net.{SocketAddr}
use stss.Protocol.{Sha256Hash, RsaSignature, Timestamp, Request, Response}
use stss.Protocol.Codec.{Codec}

pub record TimestampContext : Type 0 where
  pub server_address : SocketAddr
  pub server_certificate_name : String

module _ (CertificateDer RsaPublicKey : Type 0) where
  pub record KeyContext : Type 0 where
    pub ca_cert : List CertificateDer
    pub server_rsa_public_key : RsaPublicKey
    pub trust_roots_cert : Bool

  pub record ClientContext : Type 0 where
    pub timestamp : TimestampContext
    pub keys : KeyContext

-- The errors that the functions below return; an I/O or TLS error is its text.
pub data ClientError : Type 0 where
  io invalid_dns_name serialize deserialize : String → ClientError
  server_closed_connection : ClientError

-- `ServerName::try_from`, the certificates that a root store accepts, the roots of the Web, TCP and TLS
-- connections, and their end; the roots and the server's name are what a handshake is about.
pub record Network : Type 1 where
  pub CertificateDer : Type 0
  pub RsaPublicKey : Type 0
  pub ServerName : Type 0
  pub server_name : String → Result String ServerName
  pub parsable : List CertificateDer → List CertificateDer
  pub webpki_roots : List CertificateDer
  pub tcp_connect : SocketAddr → Result String (Unit {0})
  pub tls_connect : List CertificateDer → ServerName → SocketAddr → Result String (Unit {0})
  pub tls_shutdown : SocketAddr → Result String (Unit {0})

-- `STSSClient`: the server that its stream leads to, and its key.
pub record StssClient (net : Network) : Type 0 where
  pub server_address : SocketAddr
  pub server_rsa_public_key : net.RsaPublicKey

module _ (net : Network) where
  unfoldable pub root_cert_store :
      KeyContext net.CertificateDer net.RsaPublicKey → List net.CertificateDer
  root_cert_store keys =
      net.parsable keys.ca_cert ++ (if keys.trust_roots_cert then net.webpki_roots else [])

  unfoldable pub connect_from_context :
      ClientContext net.CertificateDer net.RsaPublicKey → Result ClientError (StssClient net)
  unfolding root_cert_store
  connect_from_context context = do
    let timestamp = context.timestamp
    domain ←
        map_err (λ _. invalid_dns_name timestamp.server_certificate_name)
          (net.server_name timestamp.server_certificate_name)
    map_err io (net.tcp_connect timestamp.server_address)
    map_err io (net.tls_connect (root_cert_store context.keys) domain timestamp.server_address)
    ok (record {
      server_address = timestamp.server_address;
      server_rsa_public_key = context.keys.server_rsa_public_key;
    })

  -- It takes the client: there is none afterwards, whatever the shutdown answers.
  unfoldable pub close : StssClient net → Result String (Unit {0})
  close client = net.tls_shutdown client.server_address

-- How sending goes, and what the stream yields then.
pub record Wire : Type 0 where
  pub sent : Result String (Unit {0})
  pub next : Option (Result String (List ℕ))

module _ (codec : Codec) where
  unfoldable pub send_request : Request → Wire → Result ClientError Response
  send_request request wire = do
    serialized_request ← map_err serialize (codec.serialize_request request)
    map_err io wire.sent
    item ← ok_or wire.next server_closed_connection
    raw_response ← map_err io item
    map_err deserialize (codec.deserialize_response raw_response)

  unfoldable pub login : String → String → Wire → Result ClientError Response
  unfolding send_request
  login username password wire = send_request (Request.login username password) wire

  unfoldable pub signup : String → String → Wire → Result ClientError Response
  unfolding send_request
  signup username password wire = send_request (Request.sign_up username password) wire

  unfoldable pub logout : Wire → Result ClientError Response
  unfolding send_request
  logout wire = send_request Request.log_out wire

  unfoldable pub how_many_tokens : Wire → Result ClientError Response
  unfolding send_request
  how_many_tokens wire = send_request Request.how_many_tokens_do_i_have wire

  unfoldable pub purchase_tokens : ℕ → Wire → Result ClientError Response
  unfolding send_request
  purchase_tokens amount wire = send_request (Request.purchase_tokens amount) wire

  unfoldable pub timestamp_hash : Sha256Hash → Wire → Result ClientError Response
  unfolding send_request
  timestamp_hash hash wire = send_request (Request.sign_hash hash) wire

  unfoldable pub history : Wire → Result ClientError Response
  unfolding send_request
  history wire = send_request Request.history wire
