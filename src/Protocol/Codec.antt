-- ===== src/Protocol/Codec.antt =====
-- The wire format of requests and responses. It is produced by the crate `wincode`, which is not
-- part of the repository: `Request::serialize`, `Request::deserialize` and the same of `Response`
-- are parameters.
use stss.Prelude.{ℕ, List, String, Result}
use stss.Protocol.{Request, Response}

-- An error of the crate is its text.
pub record Codec : Type 0 where
  pub serialize_request : Request → Result String (List ℕ)
  pub deserialize_request : List ℕ → Result String Request
  pub serialize_response : Response → Result String (List ℕ)
  pub deserialize_response : List ℕ → Result String Response
