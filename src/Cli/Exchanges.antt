-- ===== src/Cli/Exchanges.antt =====
-- A request that arrives at a guest or in a session: what the client's call returns and where the
-- connection is then. The client is client_core/src/client.rs, the server's side server/src/connection_handler.rs.
use stss.Prelude.{ℕ, Bool, true, false, some, List, String, Result, ok, err, ◌≡◌, ap, arith}
use mathlib.Core.Path.{subst⁻¹}
use stss.Protocol.{Request}
use stss.Client.{Wire, send_request}
use stss.Client.Exchange.{IsCodec, fed, response_in, reply, send_request-reply, answered}
use stss.Connection.Types.{SocketAddr, Session, Signer, Externals, StsServerState, Round, frame}
use stss.Connection.{fetch_next_request, guest_request}
use stss.Connection.Requests.{session_request}
use stss.Connection.Handler.{
  guest, in_session, conn_round, guest_round, guest_fetched, guest_answered, session_round,
  session_fetched, session_answered, after_session,
}
use stss.Cli.{Action, logged_in_after}
use stss.Cli.Link.{carried, Agrees, IsInSync, wire_of, exchanged}

module _ (x : Externals) (key : x.crypto.RsaPrivateKey) (signer : Signer)
    (address : SocketAddr) where
  fetched_bytes :
      (at : SocketAddr) (request : Request) (bytes : List ℕ)
      → IsCodec x.codec
      → x.codec.serialize_request request ≡ ok bytes
      → fetch_next_request x at (frame bytes) ≡ ok (some request)
  unfolding fetch_next_request
  fetched_bytes at request bytes law e = let q = law.requests request bytes e in ground (arith, q)

  guest_phase_of :
      (request : Request) (bytes : List ℕ) (round : Round) (st : StsServerState)
      → IsCodec x.codec
      → x.codec.serialize_request request ≡ ok bytes
      → (conn_round x key signer address guest (fed bytes round) st).0
        ≡ guest_answered x
            (fed bytes round)
            (guest_request x address (fed bytes round) request st).0
  unfolding conn_round guest_round guest_fetched
  guest_phase_of request bytes round st law e =
      ap (λ r. (guest_fetched x address (fed bytes round) r st).0)
        (fetched_bytes address request bytes law e)

  session_phase_of :
      (s : Session) (request : Request) (bytes : List ℕ) (round : Round) (st : StsServerState)
      → IsCodec x.codec
      → x.codec.serialize_request request ≡ ok bytes
      → let (a, st') = session_request x key signer s.username (fed bytes round) request st in
        (conn_round x key signer address (in_session s) (fed bytes round) st).0
        ≡ (after_session x s (session_answered x (fed bytes round) a) st').0
  unfolding conn_round session_round session_fetched
  session_phase_of s request bytes round st law e =
      ap
        (λ r.
          let (t, u) = session_fetched x key signer s (fed bytes round) r st in
          (after_session x s t u).0)
        (fetched_bytes s.address request bytes law e)

  unsent_keeps :
      (action : Action) (flag : Bool) (request : Request) (wire : Wire) (text : String)
      → x.codec.serialize_request request ≡ err text
      → logged_in_after action flag (send_request x.codec request wire) ≡ flag
  unfolding logged_in_after send_request
  unsent_keeps action flag request wire text e = ground (arith, e)

  pub guest_exchanged :
      (action : Action) (request : Request) (round : Round) (st : StsServerState)
      (bytes : Result String (List ℕ))
      → IsCodec x.codec
      → x.codec.serialize_request request ≡ bytes
      → ((r : Round)
          → let a = (guest_request x address r request st).0 in
            Agrees
              (logged_in_after action false (reply x key signer r (answered a)))
              (guest_answered x r a))
      → IsInSync (
          exchanged x key signer address action request
            (carried round)
            bytes
            (record { is_logged_in = false; phase = guest; shared = st; alive = true }))
  unfolding exchanged wire_of response_in
  guest_exchanged action request round st (err text) law e good =
      λ _. unsent_keeps action false request _ text e
  guest_exchanged action request round st (ok bytes) law e good = λ _.
      let answer = (guest_request x address (fed bytes round) request st).0 in
      subst⁻¹
        (λ r.
          Agrees (logged_in_after action false r)
            (conn_round x key signer address guest (fed bytes round) st).0)
        (send_request-reply x key signer request bytes (fed bytes round) (answered answer) law e)
        (subst⁻¹
          (Agrees
            (logged_in_after action false (reply x key signer (fed bytes round) (answered answer))))
          (guest_phase_of request bytes round st law e) (good (fed bytes round)))

  pub session_exchanged :
      (action : Action) (s : Session) (request : Request) (round : Round) (st : StsServerState)
      (bytes : Result String (List ℕ))
      → IsCodec x.codec
      → x.codec.serialize_request request ≡ bytes
      → ((r : Round)
          → let (a, st') = session_request x key signer s.username r request st in
            Agrees
              (logged_in_after action true (reply x key signer r (answered a)))
              (after_session x s (session_answered x r a) st').0)
      → IsInSync (
          exchanged x key signer address action request
            (carried round)
            bytes
            (record { is_logged_in = true; phase = in_session s; shared = st; alive = true }))
  unfolding exchanged wire_of response_in
  session_exchanged action s request round st (err text) law e good =
      λ _. unsent_keeps action true request _ text e
  session_exchanged action s request round st (ok bytes) law e good = λ _.
      let answer = (session_request x key signer s.username (fed bytes round) request st).0 in
      subst⁻¹
        (λ r.
          Agrees (logged_in_after action true r)
            (conn_round x key signer address (in_session s) (fed bytes round) st).0)
        (send_request-reply x key signer request bytes (fed bytes round) (answered answer) law e)
        (subst⁻¹
          (Agrees
            (logged_in_after action true (reply x key signer (fed bytes round) (answered answer))))
          (session_phase_of s request bytes round st law e) (good (fed bytes round)))
