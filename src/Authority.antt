-- ===== src/Authority.antt =====
-- certification_authority/src/small_server.rs: the authority's listener and the handler of a connection. The
-- wire format and the crate `rcgen` are parameters.
pub mod Messages
pub mod Rekey
pub mod Replies
use Prim.Native.String.{◌++◌}
use stss.Prelude.{ℕ, suc, List, [], ◌∷◌, String, Result, ok, err, map_err, ◌>>=◌, ◌>>◌}
use stss.Config.Authority.{CaContext}
use stss.Authority.Messages.{
  Request, certificate_sign, Response, can_not_sign_the_certificate, CaCodec,
}

pub data SmallServerRunError : Type 0 where
  bind accept : String → SmallServerRunError

pub data ClientHandlingError : Type 0 where
  network decode encode key_not_utf8 cert_not_utf8 ca_key ca_issuer csr sign :
      String → ClientHandlingError

unfoldable pub to_string : ClientHandlingError → String
to_string (network text) = "network/framing error: " ++ text
to_string (decode text) = "cannot deserialize CA request: " ++ text
to_string (encode text) = "cannot serialize CA response: " ++ text
to_string (key_not_utf8 text) = "CA key material is not valid UTF-8: " ++ text
to_string (cert_not_utf8 text) = "CA certificate is not valid UTF-8: " ++ text
to_string (ca_key text) = "cannot parse CA private key: " ++ text
to_string (ca_issuer text) = "cannot build CA issuer: " ++ text
to_string (csr text) = "cannot parse certificate signing request: " ++ text
to_string (sign text) = "cannot sign certificate signing request: " ++ text

-- `str::from_utf8`, and of the crate `rcgen`: the keys, issuers and requests, and signing, which gives the
-- certificate's PEM text.
pub record Rcgen : Type 1 where
  pub KeyPair : Type 0
  pub Issuer : Type 0
  pub SigningRequest : Type 0
  pub from_utf8 : List ℕ → Result String String
  pub from_pem : String → Result String KeyPair
  pub from_ca_cert_pem : String → KeyPair → Result String Issuer
  pub from_der : List ℕ → Result String SigningRequest
  pub signed_by : SigningRequest → Issuer → Result String String

module _ (rcgen : Rcgen) where
  unfoldable pub sign_certificate_request : List ℕ → CaContext → Result ClientHandlingError String
  sign_certificate_request raw_csr context = do
    ca_key_pem ← map_err key_not_utf8 (rcgen.from_utf8 context.ca_key_pem)
    ca_cert_pem ← map_err cert_not_utf8 (rcgen.from_utf8 context.ca_cert_pem)
    ca_key_pair ← map_err ca_key (rcgen.from_pem ca_key_pem)
    issuer ← map_err ca_issuer (rcgen.from_ca_cert_pem ca_cert_pem ca_key_pair)
    csr_params ← map_err csr (rcgen.from_der raw_csr)
    map_err sign (rcgen.signed_by csr_params issuer)

  abbrev pub response_of : Result ClientHandlingError String → Response
  response_of (ok pem_cert) = Response.ok pem_cert
  response_of (err e) = can_not_sign_the_certificate (to_string e)

  unfoldable pub handle_request : Request → CaContext → Response
  unfolding sign_certificate_request
  handle_request (certificate_sign raw_cert) context =
      response_of (sign_certificate_request raw_cert context)

  module _ (codec : CaCodec) (context : CaContext) where
    -- A frame's turn of the loop: the serialized response, or the error that ends the loop.
    unfoldable pub respond : List ℕ → Result ClientHandlingError (List ℕ)
    unfolding handle_request
    respond raw_message = do
      request ← map_err decode (codec.deserialize_request raw_message)
      map_err encode (codec.serialize_response (handle_request request context))

    -- A frame, or a failed read, and how sending the response to it goes.
    abbrev pub Frame : Type 0
    Frame = Result String (List ℕ) × Result String (Unit {0})

    abbrev pub put :
        List ℕ
        → List (List ℕ) × Result ClientHandlingError (Unit {0})
        → List (List ℕ) × Result ClientHandlingError (Unit {0})
    put bytes (sent, r) = (bytes ∷ sent, r)

    abbrev pub send :
        List ℕ
        → Result String (Unit {0})
        → List (List ℕ) × Result ClientHandlingError (Unit {0})
        → List (List ℕ) × Result ClientHandlingError (Unit {0})
    send bytes (ok _) rest = put bytes rest
    send bytes (err text) rest = ([], err (network text))

    abbrev pub answer :
        Result ClientHandlingError (List ℕ)
        → Result String (Unit {0})
        → List (List ℕ) × Result ClientHandlingError (Unit {0})
        → List (List ℕ) × Result ClientHandlingError (Unit {0})
    answer (err e) sending rest = ([], err e)
    answer (ok bytes) sending rest = send bytes sending rest

    -- The loop over the frames of a connection, to its end: what was sent, and the result.
    unfoldable pub handle_client :
        List Frame → List (List ℕ) × Result ClientHandlingError (Unit {0})
    unfolding respond
    handle_client [] = ([], ok tt)
    handle_client ((err text, sending) ∷ frames) = ([], err (network text))
    handle_client ((ok raw_message, sending) ∷ frames) =
        answer (respond raw_message) sending (handle_client frames)

-- What `tokio::select!` of the accept loop gives: a connection, a failed accept, or ctrl+c.
pub data Selected : Type 0 where
  accepted : Result String (Unit {0}) → Selected
  interrupted : Selected

-- `SmallServer::run`: the number of connections that it has spawned a task for, and the result, when it
-- returns.
pub data Run : Type 0 where
  waiting : ℕ → Run
  finished : ℕ → Result SmallServerRunError (Unit {0}) → Run

unfoldable pub accept_loop : ℕ → List Selected → Run
accept_loop n [] = waiting n
accept_loop n (accepted (ok _) ∷ rest) = accept_loop (suc n) rest
accept_loop n (accepted (err text) ∷ rest) = finished n (err (accept text))
accept_loop n (interrupted ∷ rest) = finished n (ok tt)

unfoldable pub run : Result String (Unit {0}) → List Selected → Run
unfolding accept_loop
run (err text) events = finished 0 (err (bind text))
run (ok _) events = accept_loop 0 events
