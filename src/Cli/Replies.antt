-- ===== src/Cli/Replies.antt =====
-- What the handlers of server/src/connection_handler.rs answer to a client, and `is_logged_in` of
-- client_cli/src/main.rs after it.
use stss.Prelude.{Bool, true, false, Option, none, some, String, Result, ok, err, ◌≡◌, arith}
use stss.Protocol.{Response}
use stss.Client.Exchange.{reply, delivered, answered}
use stss.Connection.Types.{
  SocketAddr, Session, Signer, Externals, StsServerState, Round, HandlerError, insert,
}
use stss.Connection.{Answer, answer, failed, panicked, start_session, handle_login, handle_sign_up}
use stss.Connection.Handler.{
  guest_answered, guest_phase, session_answered, after_session, send_response,
}
use stss.Cli.{Action, logged_in_after}
use stss.Cli.Link.{Agrees, session}

module _ (x : Externals) (key : x.crypto.RsaPrivateKey) (signer : Signer)
    (address : SocketAddr) where
  abbrev pub LoginReply : Answer (Option Session) → Type 0
  LoginReply (answer Response.ok none) = ⊥
  LoginReply (answer Response.ok (some s)) = Unit
  LoginReply (answer _ started) = started ≡ none
  LoginReply _ = Unit

  abbrev pub NoSession : Answer (Option Session) → Type 0
  NoSession (answer _ started) = started ≡ none
  NoSession _ = Unit

  abbrev pub NoLogout : Answer Bool → Type 0
  NoLogout (answer _ has_to_logout) = has_to_logout ≡ false
  NoLogout _ = Unit

  pub handle_login-LoginReply :
      (name password : String) (st : StsServerState)
      → LoginReply (handle_login x address name password st).0
  unfolding handle_login start_session insert
  handle_login-LoginReply name password st = ground arith

  pub handle_sign_up-NoSession :
      (salt name password : String) (st : StsServerState)
      → NoSession (handle_sign_up x address salt name password st).0
  unfolding handle_sign_up
  handle_sign_up-NoSession salt name password st = ground arith

  login-Agrees :
      (c : Option (String × String)) (response : Response) (started : Option Session)
      (r : Result HandlerError (Unit {0}))
      → LoginReply (answer response started)
      → Agrees
          (logged_in_after (Action.login c) false (delivered x key signer response r))
          (guest_phase x started r)
  unfolding logged_in_after
  login-Agrees c response started (err e) h = tt
  login-Agrees c response none (ok u) h = ground arith
  login-Agrees c response (some s) (ok u) h = ground arith

  pub guest_login :
      (c : Option (String × String)) (round : Round) (a : Answer (Option Session))
      → LoginReply a
      → Agrees
          (logged_in_after (Action.login c) false (reply x key signer round (answered a)))
          (guest_answered x round a)
  unfolding reply guest_answered
  guest_login c round (answer response started) h =
      login-Agrees c response started (send_response x round response) h
  guest_login c round (failed e) h = tt
  guest_login c round panicked h = tt

  pub guest_signup :
      (c : Option (String × String)) (round : Round) (a : Answer (Option Session))
      → NoSession a
      → Agrees
          (logged_in_after (Action.signup c) false (reply x key signer round (answered a)))
          (guest_answered x round a)
  unfolding reply guest_answered logged_in_after
  guest_signup c round a h = ground arith

  pub still_in_session :
      (session : Session) (round : Round) (a : Answer Bool) (st : StsServerState)
      → NoLogout a
      → Agrees true (after_session x session (session_answered x round a) st).0
  unfolding session_answered after_session
  still_in_session session round a st h = ground arith

  pub out_of_session :
      (session : Session) (round : Round) (st : StsServerState)
      → Agrees
          (logged_in_after Action.logout true (reply x key signer round (some Response.ok)))
          (after_session x session (session_answered x round (answer Response.ok true)) st).0
  unfolding reply session_answered after_session logged_in_after
  out_of_session session round st = ground arith
