-- ===== src/Client/Exchange.antt =====
-- A client of client_core/src/client.rs at a connection of server/src/connection_handler.rs: what the server
-- sends in a round is what the client's stream yields.
use stss.Prelude.{
  Option, none, some, List, ℕ, String, Result, ok, err, ◌≡◌, refl, arith, Result-cases, inl, inr,
}
use stss.Protocol.{Request, Response}
use stss.Protocol.Codec.{Codec}
use stss.Client.{ClientError, server_closed_connection, send_request}
use stss.Connection.Types.{
  SocketAddr, Signer, Externals, StsServerState, Round, IoError, HandlerError, frame,
}
use stss.Connection.{Answer, answer, guest_request}
use stss.Connection.Requests.{session_request}
use stss.Connection.Handler.{Phase, guest, in_session, send_response}

-- What the crate documents of the wire format: values are read back.
pub record IsCodec (codec : Codec) : Type 0 where
  pub requests :
      (r : Request) (b : List ℕ)
      → codec.serialize_request r ≡ ok b
      → codec.deserialize_request b ≡ ok r
  pub responses :
      (r : Response) (b : List ℕ)
      → codec.serialize_response r ≡ ok b
      → codec.deserialize_response b ≡ ok r

abbrev pub fed : List ℕ → Round → Round
fed bytes round = record round { polled = frame bytes }

abbrev pub answered : {A : Type 0} → Answer A → Option Response
answered (answer response _) = some response
answered _ = none

module _ (x : Externals) (key : x.crypto.RsaPrivateKey) (signer : Signer) where
  -- The response to a request, in each phase of a connection.
  unfoldable pub response_in :
      SocketAddr → Phase → Round → Request → StsServerState → Option Response
  response_in address guest round request st = answered (guest_request x address round request st).0
  response_in address (in_session session) round request st =
      answered (session_request x key signer session.username round request st).0
  response_in address _ round request st = none

  abbrev pub item :
      Result String (List ℕ) → Result IoError (Unit {0}) → Option (Result String (List ℕ))
  item (ok bytes) (ok _) = some (ok bytes)
  item _ _ = none

  -- The stream's next item: the response, if it could be serialized and sent, or the end.
  unfoldable pub next_item : Round → Option Response → Option (Result String (List ℕ))
  next_item round none = none
  next_item round (some response) = item (x.codec.serialize_response response) round.send

  -- The result of the client's call, by what became of the response.
  abbrev pub delivered : Response → Result HandlerError (Unit {0}) → Result ClientError Response
  delivered response (ok _) = ok response
  delivered response (err _) = err server_closed_connection

  unfoldable pub reply : Round → Option Response → Result ClientError Response
  reply round none = err server_closed_connection
  reply round (some response) = delivered response (send_response x round response)

  pub send_request-reply :
      (request : Request) (bytes : List ℕ) (round : Round) (response : Option Response)
      → IsCodec x.codec
      → x.codec.serialize_request request ≡ ok bytes
      → send_request x.codec request (record { sent = ok tt; next = next_item round response })
        ≡ reply round response
  unfolding send_request next_item reply send_response
  send_request-reply request bytes round none law e = rw e refl
  send_request-reply request bytes round (some response) law e =
      elim (Result-cases (x.codec.serialize_response response)) [
        | inl (b, p) ↦ let q = law.responses response b p in ground (arith, q, e, p)
        | inr (text, p) ↦ ground (arith, e, p)
      ]
