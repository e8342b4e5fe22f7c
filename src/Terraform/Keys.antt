-- ===== src/Terraform/Keys.antt =====
-- The keys and certificates that `generate_keys_and_distribute` of terraform/src/lib.rs makes before it writes
-- any file. Keys, certificates and TOML text are the crates'.
use stss.Prelude.{List, [], ◌∷◌, String, Result, ok, map_err, ◌>>=◌ as ◌|>◌}
use stss.Config.Server
use stss.Config.Client
use stss.Config.Authority

-- An error is its text, without the path that goes with it.
pub data KeyGenError : Type 0 where
  io rsa rsa_pkcs8 tls pem ca_certificate_creation server_certificate_creation :
      String → KeyGenError

-- The crates `rcgen`, `rsa` and `toml`; the two key pairs are generated one after the other.
pub record Crates : Type 1 where
  pub KeyPair : Type 0
  pub CertificateParams : Type 0
  pub Certificate : Type 0
  pub Issuer : Type 0
  pub RsaPrivateKey : Type 0
  pub generate_ca : Result String KeyPair
  pub generate_server : Result String KeyPair
  pub serialize_pem : KeyPair → String
  pub new_params : List String → Result String CertificateParams
  pub unconstrained_ca : CertificateParams → CertificateParams
  pub push_names : String → String → CertificateParams → CertificateParams
  pub self_signed : CertificateParams → KeyPair → Result String Certificate
  pub issuer : CertificateParams → KeyPair → Issuer
  pub signed_by : CertificateParams → KeyPair → Issuer → Result String Certificate
  pub pem : Certificate → String
  pub new_rsa : Result String RsaPrivateKey
  pub to_pkcs8_pem : RsaPrivateKey → Result String String
  pub to_public_key_pem : RsaPrivateKey → Result String String
  pub server_toml : Server.Config → Result String String
  pub client_toml : Client.Config → Result String String
  pub ca_toml : Authority.Config → Result String String

-- The texts of the files.
pub record Keys : Type 0 where
  pub ca_key_pem : String
  pub ca_cert_pem : String
  pub server_tls_key_pem : String
  pub server_tls_cert_pem : String
  pub server_rsa_priv_pem : String
  pub server_rsa_pub_pem : String

abbrev pub default_ip : String
default_ip = "127.0.0.1"

module _ (crates : Crates) where
  unfoldable pub generate_keys : Result KeyGenError Keys
  generate_keys = map_err tls crates.generate_ca |> λ ca_keypair.
      map_err ca_certificate_creation (crates.new_params ("Root CA" ∷ [])) |> λ params.
      let ca_params =
        crates.push_names "University of Pisa" "CyberSecurity Project"
          (crates.unconstrained_ca params) in
      map_err ca_certificate_creation (crates.self_signed ca_params ca_keypair) |> λ ca_cert.
      map_err tls crates.generate_server |> λ server_tls_keypair.
      map_err ca_certificate_creation (crates.new_params (default_ip ∷ [])) |> λ server_params.
      let named = crates.push_names "University of Pisa" "TSA Server" server_params in
      map_err server_certificate_creation
        (crates.signed_by named server_tls_keypair (crates.issuer ca_params ca_keypair))
      |> λ server_tls_cert. map_err rsa crates.new_rsa |> λ server_rsa_priv.
          map_err rsa_pkcs8 (crates.to_pkcs8_pem server_rsa_priv) |> λ server_rsa_priv_pem.
          map_err KeyGenError.pem (crates.to_public_key_pem server_rsa_priv)
          |> λ server_rsa_pub_pem. ok (record {
            ca_key_pem = crates.serialize_pem ca_keypair;
            ca_cert_pem = crates.pem ca_cert;
            server_tls_key_pem = crates.serialize_pem server_tls_keypair;
            server_tls_cert_pem = crates.pem server_tls_cert;
            server_rsa_priv_pem = server_rsa_priv_pem;
            server_rsa_pub_pem = server_rsa_pub_pem;
          })
