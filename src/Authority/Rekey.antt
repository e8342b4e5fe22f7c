-- ===== src/Authority/Rekey.antt =====
-- server/src/rekey.rs: the request for a new certificate of the server. The crate `rcgen`, the connection to the
-- authority and the file system are the environment's.
use stss.Prelude.{
  ℕ, ◌≡◌, Option, none, some, List, [], ◌∷◌, String, Result, ok, err, map_err, ok_or, ◌>>=◌, ◌>>◌,
}
use stss.Config.Authority.{CaContext}
use stss.Authority.Messages.{
  Request, certificate_sign, Response, can_not_sign_the_certificate, CaCodec,
}
use stss.Authority.{Rcgen, ClientHandlingError, to_string}

pub data SignRequestError : Type 0 where
  ca_certificate_creation io_error network_error serialization deserialization refused :
      String → SignRequestError
  connection_closed : SignRequestError

pub data RekeyClientManagerError : Type 0 where
  -- `RekeyClientError::IoError`
  rekey_client : String → RekeyClientManagerError
  sign_request : SignRequestError → RekeyClientManagerError

-- The `RekeyClient` without its stream.
pub record RekeyClient : Type 0 where
  pub server_ip : String
  pub organization_name : String
  pub server_name : String
  pub output : String

-- `KeyPair::generate_for`, `CertificateParams::new`, `push` of the two names, and `serialize_request`.
pub record CsrBuilder : Type 1 where
  pub KeyPair : Type 0
  pub CertificateParams : Type 0
  pub generate_for : Result String KeyPair
  pub new : List String → Result String CertificateParams
  pub push_organization_name : String → CertificateParams → CertificateParams
  pub push_common_name : String → CertificateParams → CertificateParams
  pub serialize_request : CertificateParams → KeyPair → Result String (List ℕ)

-- How sending goes, what the stream yields then, and how writing the file goes.
pub record Surroundings : Type 0 where
  pub sent : Result String (Unit {0})
  pub next : Option (Result String (List ℕ))
  pub write : Result String (Unit {0})

-- The response, by its kind: the certificate to write, or the refusal.
abbrev pub certificate_of : Response → Result SignRequestError String
certificate_of (Response.ok pem_cert) = ok pem_cert
certificate_of (can_not_sign_the_certificate reason) = err (refused reason)

-- `fs::write(&self.output, pem_cert)`: the result, and the text that the file holds if it was written.
abbrev pub write_output :
    Result String (Unit {0})
    → Result SignRequestError String
    → Result SignRequestError (Unit {0}) × Option String
write_output (ok _) (ok pem_cert) = (ok tt, some pem_cert)
write_output (err text) (ok pem_cert) = (err (io_error text), none)
write_output write (err e) = (err e, none)

module _ (builder : CsrBuilder) (codec : CaCodec) where
  unfoldable pub build_csr : RekeyClient → Result SignRequestError (List ℕ)
  build_csr client = do
    server_tls_keypair ← map_err ca_certificate_creation builder.generate_for
    server_tls_params ← map_err ca_certificate_creation (builder.new (client.server_ip ∷ []))
    let organized = builder.push_organization_name client.organization_name server_tls_params
    let named = builder.push_common_name client.server_name organized
    map_err ca_certificate_creation (builder.serialize_request named server_tls_keypair)

  -- The request and the response to it.
  unfoldable pub request_certificate : List ℕ → Surroundings → Result SignRequestError String
  request_certificate raw_cert around = do
    serialized_req ← map_err serialization (codec.serialize_request (certificate_sign raw_cert))
    map_err network_error around.sent
    response_result ← ok_or around.next connection_closed
    raw_frame ← map_err network_error response_result
    deserialized_response ← map_err deserialization (codec.deserialize_response raw_frame)
    certificate_of deserialized_response

  unfoldable pub new_cert_sign_request :
      RekeyClient → Surroundings → Result SignRequestError (Unit {0}) × Option String
  unfolding build_csr request_certificate
  new_cert_sign_request client around =
      write_output around.write
        (build_csr client >>= λ raw_cert. request_certificate raw_cert around)

  abbrev pub connected :
      Result String (Unit {0})
      → Result SignRequestError (Unit {0}) × Option String
      → Result RekeyClientManagerError (Unit {0}) × Option String
  connected (err text) request = (err (rekey_client text), none)
  connected (ok _) (r, file) = (map_err sign_request r, file)

  -- `RekeyClientManager::rekey`: `RekeyClient::new` connects to the authority.
  unfoldable pub rekey :
      Result String (Unit {0})
      → RekeyClient
      → Surroundings
      → Result RekeyClientManagerError (Unit {0}) × Option String
  unfolding new_cert_sign_request
  rekey connection client around = connected connection (new_cert_sign_request client around)

-- What the crate documents of the wire format: values are read back.
pub record IsCaCodec (codec : CaCodec) : Type 0 where
  pub requests :
      (r : Request) (b : List ℕ)
      → codec.serialize_request r ≡ ok b
      → codec.deserialize_request b ≡ ok r
  pub responses :
      (r : Response) (b : List ℕ)
      → codec.serialize_response r ≡ ok b
      → codec.deserialize_response b ≡ ok r

module _ (builder : CsrBuilder) (codec : CaCodec) (rcgen : Rcgen) (context : CaContext) where
  -- What the authority makes of a request, as an outcome of the renewal.
  abbrev pub signed : Result ClientHandlingError String → Result SignRequestError String
  signed (ok pem_cert) = ok pem_cert
  signed (err e) = err (refused (to_string e))

  -- The end of a renewal, by what the authority made of the request and how writing the file goes: the result, and
  -- the text that the output file has been given.
  abbrev pub RenewalPost :
      Result ClientHandlingError String
      → Result String (Unit {0})
      → Result SignRequestError (Unit {0}) × Option String
      → Type 0
  RenewalPost (ok pem_cert) (ok _) (r, file) = (r ≡ ok tt) × (file ≡ some pem_cert)
  RenewalPost (ok pem_cert) (err text) (r, file) = (r ≡ err (io_error text)) × (file ≡ none)
  RenewalPost (err e) write (r, file) = (r ≡ err (refused (to_string e))) × (file ≡ none)
