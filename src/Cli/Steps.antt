-- ===== src/Cli/Steps.antt =====
-- A request that arrives, by the phase of the connection: what it does to `is_logged_in` of
-- client_cli/src/main.rs and to the session in server/src/connection_handler.rs.
use stss.Prelude.{true, false, Option, none, some, String, Result, ◌≡◌, ◌≢◌, refl, arith}
use mathlib.Core.Path.{subst, subst⁻¹}
use stss.Protocol.{Request, Response}
use stss.Client.{ClientError}
use stss.Client.Exchange.{IsCodec, reply, answered}
use stss.Connection.Types.{SocketAddr, Session, Signer, Externals, StsServerState, Round}
use stss.Connection.{handle_login, handle_sign_up, guest_request}
use stss.Connection.Requests.{
  session_request, handle_purchase, handle_count, refund, store_record, deliver, handle_history,
  after_subtraction, sign_at, handle_sign_hash,
}
use stss.Connection.Handler.{guest, in_session, guest_answered, session_answered, after_session}
use stss.Cli.{
  Action, Choice, options, offers, choice_of, request_of, logged_in_after,
  validate_credentials_length, if_valid,
}
use stss.Cli.Link.{carried, Agrees, IsInSync, exchange, requested}
use stss.Cli.Replies.{
  handle_login-LoginReply, handle_sign_up-NoSession, guest_login, guest_signup, still_in_session,
  out_of_session, NoLogout,
}
use stss.Cli.Exchanges.{guest_exchanged, session_exchanged}

module _ (x : Externals) (key : x.crypto.RsaPrivateKey) (signer : Signer)
    (address : SocketAddr) where
  pub guest_requested :
      (action : Action) (o : Option Request) (round : Round) (st : StsServerState)
      → IsCodec x.codec
      → ((request : Request)
          → o ≡ some request
          → (r : Round)
          → let a = (guest_request x address r request st).0 in
            Agrees
              (logged_in_after action false (reply x key signer r (answered a)))
              (guest_answered x r a))
      → IsInSync (
          requested x key signer address action o
            (carried round)
            (record { is_logged_in = false; phase = guest; shared = st; alive = true }))
  unfolding exchange
  guest_requested action none round st law good = λ _. refl
  guest_requested action (some request) round st law good =
      guest_exchanged x key signer address action request round st
        (x.codec.serialize_request request) law refl (good request refl)

  pub session_requested :
      (action : Action) (s : Session) (o : Option Request) (round : Round) (st : StsServerState)
      → IsCodec x.codec
      → ((request : Request)
          → o ≡ some request
          → (r : Round)
          → let (a, st') = session_request x key signer s.username r request st in
            Agrees
              (logged_in_after action true (reply x key signer r (answered a)))
              (after_session x s (session_answered x r a) st').0)
      → IsInSync (
          requested x key signer address action o
            (carried round)
            (record { is_logged_in = true; phase = in_session s; shared = st; alive = true }))
  unfolding exchange
  session_requested action s none round st law good = λ _. refl
  session_requested action s (some request) round st law good =
      session_exchanged x key signer address action s request round st
        (x.codec.serialize_request request) law refl (good request refl)

  if_valid_inverse : (u p : String) (r q : Request) → if_valid u p r ≡ some q → r ≡ q
  unfolding validate_credentials_length
  if_valid_inverse u p r q h = ground arith

  pub guest_good :
      (action : Action) (request : Request) (st : StsServerState)
      → offers (options false) (choice_of action) ≡ true
      → request_of action ≡ some request
      → (r : Round)
      → let a = (guest_request x address r request st).0 in
        Agrees
          (logged_in_after action false (reply x key signer r (answered a)))
          (guest_answered x r a)
  unfolding request_of options guest_request
  guest_good (Action.login (some (u, p))) request st o e r =
      subst
        (λ q.
          let a = (guest_request x address r q st).0 in
          Agrees
            (logged_in_after (Action.login (some (u, p))) false (reply x key signer r (answered a)))
            (guest_answered x r a))
        (if_valid_inverse u p (Request.login u p) request e)
        (guest_login x key signer address (some (u, p)) r (handle_login x address u p st).0
          (handle_login-LoginReply x key signer address u p st))
  guest_good (Action.signup (some (u, p))) request st o e r =
      subst
        (λ q.
          let a = (guest_request x address r q st).0 in
          Agrees
            (logged_in_after (Action.signup (some (u, p))) false
              (reply x key signer r (answered a)))
            (guest_answered x r a))
        (if_valid_inverse u p (Request.sign_up u p) request e)
        (guest_signup x key signer address (some (u, p)) r
          (handle_sign_up x address r.salt u p st).0
          (handle_sign_up-NoSession x key signer address r.salt u p st))
  guest_good action request st o e r = cc

  session_request-NoLogout :
      (name : String) (round : Round) (request : Request) (st : StsServerState)
      → request ≢ Request.log_out
      → NoLogout x key signer address (session_request x key signer name round request st).0
  unfolding session_request handle_sign_hash handle_purchase handle_count handle_history
      after_subtraction sign_at deliver refund store_record
  session_request-NoLogout name round request st h = ground (arith, h)

  keeps_session :
      (action : Action) (rep : Result ClientError Response)
      → choice_of action ≢ Choice.logout
      → logged_in_after action true rep ≡ true
  unfolding logged_in_after
  keeps_session action rep h = ground (arith, h)

  sends_log_out :
      (action : Action) (request : Request)
      → choice_of action ≢ Choice.logout
      → request_of action ≡ some request
      → request ≢ Request.log_out
  unfolding request_of validate_credentials_length
  sends_log_out action request h e = λ p. ground (arith, h, e, p)

  session_good_stays :
      (action : Action) (s : Session) (request : Request) (st : StsServerState)
      → choice_of action ≢ Choice.logout
      → request_of action ≡ some request
      → (r : Round)
      → let (a, st') = session_request x key signer s.username r request st in
        Agrees
          (logged_in_after action true (reply x key signer r (answered a)))
          (after_session x s (session_answered x r a) st').0
  session_good_stays action s request st h e r =
      let (a, st') = session_request x key signer s.username r request st in
      subst⁻¹ (λ f. Agrees f (after_session x s (session_answered x r a) st').0)
        (keeps_session action (reply x key signer r (answered a)) h)
        (still_in_session x key signer address s r a st'
          (session_request-NoLogout s.username r request st (sends_log_out action request h e)))

  pub session_good :
      (action : Action) (s : Session) (request : Request) (st : StsServerState)
      → request_of action ≡ some request
      → (r : Round)
      → let (a, st') = session_request x key signer s.username r request st in
        Agrees
          (logged_in_after action true (reply x key signer r (answered a)))
          (after_session x s (session_answered x r a) st').0
  unfolding request_of session_request
  session_good Action.logout s request st e r =
      subst
        (λ q.
          let (a, st') = session_request x key signer s.username r q st in
          Agrees (logged_in_after Action.logout true (reply x key signer r (answered a)))
            (after_session x s (session_answered x r a) st').0)
        (let same : Request.log_out ≡ request = cc e in same)
        (out_of_session x key signer address s r st)
  session_good action s request st e r = session_good_stays action s request st (λ p. cc p) e r
