-- ===== src/Authority/Messages.antt =====
-- The messages of shared_library/src/ca_protocol.rs. The crate `wincode` produces the wire format, which is
-- a parameter.
use stss.Prelude.{ℕ, List, String, Result}

-- `CertificateSign { raw_cert }`
pub data Request : Type 0 where
  certificate_sign : List ℕ → Request

pub data Response : Type 0 where
  ok : String → Response
  can_not_sign_the_certificate : String → Response

-- `serialize` and `deserialize` of both; an error is its text.
pub record CaCodec : Type 0 where
  pub serialize_request : Request → Result String (List ℕ)
  pub deserialize_request : List ℕ → Result String Request
  pub serialize_response : Response → Result String (List ℕ)
  pub deserialize_response : List ℕ → Result String Response
