-- ===== src/Connection/Handler.antt =====
-- server/src/connection_handler.rs: the loops of `conn_handler_core` and `session_handler` as one
-- machine. A round is one turn of a loop, from the request to the sent response; the shared state
-- changes from one round of a connection to the next only as the schedule of rounds says.
use stss.Prelude.{
  Bool, true, false, Option, none, some, Result, ok, err, map_err, List, [], ◌∷◌, if◌then◌else◌,
}
use stss.Protocol.{Request, Response}
use stss.Connection.Types.{
  IoError, SocketAddr, ClosedStreamReason, interrupt_received, client_asked, ClosedSessionReason,
  closed_stream, logged_out, NetworkError, serialize, HandlerError, network, domain, Session,
  Signer, Externals, StsServerState, Round, remove,
}
use stss.Connection.{
  Answer, answer, failed, panicked, send_error_logger, fetch_next_request, guest_request,
}
use stss.Connection.Requests.{session_request}

-- Where the task of one connection is: in the loop of `conn_handler_core`, in `session_handler`, or
-- over, as its result or a panic.
pub data Phase : Type 0 where
  guest : Phase
  in_session : Session → Phase
  closed : Result HandlerError ClosedStreamReason → Phase
  crashed : Phase

-- A turn of the loop of `session_handler`: it goes on, it ends with its result, or it panics.
pub data Turn : Type 0 where
  goes_on : Turn
  ends : Result HandlerError ClosedSessionReason → Turn
  panics : Turn

unfoldable pub closing_reason : StsServerState → ClosedStreamReason
closing_reason st = if st.cancelled then interrupt_received else client_asked

-- The result of `stream.send`, behind `send_error_logger`.
abbrev pub sent : Result IoError (Unit {0}) → Result HandlerError (Unit {0})
sent r = map_err (λ e. network (send_error_logger e)) r

module _ (x : Externals) where
  open x use {codec}

  -- The response is serialized and sent.
  unfoldable pub send_response : Round → Response → Result HandlerError (Unit {0})
  send_response round response = elim (codec.serialize_response response) [
    | ok _ ↦ sent round.send
    | err e ↦ err (domain none (serialize e))
  ]

  abbrev pub guest_phase : Option Session → Result HandlerError (Unit {0}) → Phase
  guest_phase started (err e) = closed (err e)
  guest_phase none (ok _) = guest
  guest_phase (some session) (ok _) = in_session session

  unfoldable pub guest_answered : Round → Answer (Option Session) → Phase
  unfolding send_response
  guest_answered round (answer response started) =
      guest_phase started (send_response round response)
  guest_answered round (failed e) = closed (err e)
  guest_answered round panicked = crashed

  unfoldable pub guest_fetched :
      SocketAddr
      → Round
      → Result NetworkError (Option Request)
      → StsServerState
      → Phase × StsServerState
  unfolding guest_answered
  guest_fetched address round (err e) st = (closed (err (network e)), st)
  guest_fetched address round (ok none) st = (closed (ok (closing_reason st)), st)
  guest_fetched address round (ok (some request)) st =
      let (a, st') = guest_request x address round request st in (guest_answered round a, st')

  -- A turn of the loop of `conn_handler_core` outside of a session.
  unfoldable pub guest_round : SocketAddr → Round → StsServerState → Phase × StsServerState
  unfolding guest_fetched
  guest_round address round st =
      guest_fetched address round (fetch_next_request x address round.polled) st

  abbrev pub session_turn : Bool → Result HandlerError (Unit {0}) → Turn
  session_turn has_to_logout (err e) = ends (err e)
  session_turn true (ok _) = ends (ok logged_out)
  session_turn false (ok _) = goes_on

  unfoldable pub session_answered : Round → Answer Bool → Turn
  unfolding send_response
  session_answered round (answer response has_to_logout) =
      session_turn has_to_logout (send_response round response)
  session_answered round (failed e) = ends (err e)
  session_answered round panicked = panics

  -- What `conn_handler_core` does with the end of a session.
  unfoldable pub after_session : Session → Turn → StsServerState → Phase × StsServerState
  after_session session goes_on st = (in_session session, st)
  after_session session panics st = (crashed, st)
  after_session session (ends r) st =
      let st' = record st { logged_users = remove session.username st.logged_users } in
      elim r [
        | err e ↦ (closed (err e), st')
        | ok logged_out ↦ (guest, st')
        | ok (closed_stream reason) ↦ (closed (ok reason), st')
      ]

  module _ (signing_key : x.crypto.RsaPrivateKey) (signer : Signer) where
    unfoldable pub session_fetched :
        Session
        → Round
        → Result NetworkError (Option Request)
        → StsServerState
        → Turn × StsServerState
    unfolding session_answered
    session_fetched session round (err e) st = (ends (err (network e)), st)
    session_fetched session round (ok none) st = (ends (ok (closed_stream (closing_reason st))), st)
    session_fetched session round (ok (some request)) st =
        let (a, st') = session_request x signing_key signer session.username round request st in
        (session_answered round a, st')

    -- A turn of the loop of `session_handler`.
    unfoldable pub session_round : Session → Round → StsServerState → Turn × StsServerState
    unfolding session_fetched
    session_round session round st =
        session_fetched session round (fetch_next_request x session.address round.polled) st

    unfoldable pub conn_round : SocketAddr → Phase → Round → StsServerState → Phase × StsServerState
    unfolding guest_round session_round after_session
    conn_round address guest round st = guest_round address round st
    conn_round address (in_session session) round st =
        let (turn, st') = session_round session round st in after_session session turn st'
    conn_round address phase round st = (phase, st)

    -- `conn_handler_core` over the rounds that come.
    unfoldable pub conn_handler_core :
        SocketAddr → List Round → Phase → StsServerState → Phase × StsServerState
    conn_handler_core address [] phase st = (phase, st)
    conn_handler_core address (round ∷ rounds) phase st =
        let (phase', st') = conn_round address phase round st in
        conn_handler_core address rounds phase' st'
