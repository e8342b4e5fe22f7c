-- ===== src/Authority/Replies.antt =====
-- What `handle_client` of certification_authority/src/small_server.rs sends to a client, read back.
use stss.Prelude.{ℕ, List, [], ◌∷◌, String, Result, ok, err, ◌⊎◌, ◌≡◌}
use stss.Config.Authority.{CaContext}
use stss.Authority.Messages.{certificate_sign, Response, can_not_sign_the_certificate, CaCodec}
use stss.Authority.{
  Rcgen, ClientHandlingError, network, encode, to_string, Frame, sign_certificate_request,
}

module _ (rcgen : Rcgen) (codec : CaCodec) (context : CaContext) where
  -- The answer that a certificate request is due: the certificate, or the reason why there is none.
  abbrev pub due : Result ClientHandlingError String → Response
  due (ok pem_cert) = Response.ok pem_cert
  due (err e) = can_not_sign_the_certificate (to_string e)

  -- What may end the loop at a request: the answer has no bytes, or sending fails.
  abbrev pub IsCut : Response → Result String (Unit {0}) → ClientHandlingError → Type 0
  IsCut response sending e =
      ((text : String) × (codec.serialize_response response ≡ err text) × (e ≡ encode text))
      ⊎ ((text : String) × (sending ≡ err text) × (e ≡ network text))

  -- What is sent for the requests, each with how sending its answer goes, and the result of the loop: the
  -- answers are those that are due, in order, up to the end or to the request at which the loop ends.
  abbrev pub RepliesPost :
      List (List ℕ × Result String (Unit {0}))
      → List (List ℕ) × Result ClientHandlingError (Unit {0})
      → Type 0
  RepliesPost [] (sent, r) = (sent ≡ []) × (r ≡ ok tt)
  RepliesPost ((raw_csr, sending) ∷ rest) ([], ok _) = ⊥
  RepliesPost ((raw_csr, sending) ∷ rest) ([], err e) =
      IsCut (due (sign_certificate_request rcgen raw_csr context)) sending e
  RepliesPost ((raw_csr, sending) ∷ rest) (bytes ∷ sent, r) =
      (codec.deserialize_response bytes ≡ ok (due (sign_certificate_request rcgen raw_csr context)))
      × (sending ≡ ok tt)
      × RepliesPost rest (sent, r)

  -- The frames hold the requests.
  abbrev pub Hold :
      List (List ℕ × Result String (Unit {0})) → List (Frame rcgen codec context) → Type 0
  Hold [] [] = Unit
  Hold ((raw_csr, sending) ∷ rest) ((ok bytes, sending') ∷ frames) =
      (codec.serialize_request (certificate_sign raw_csr) ≡ ok bytes)
      × (sending' ≡ sending)
      × Hold rest frames
  Hold _ _ = ⊥
