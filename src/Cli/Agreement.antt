-- ===== src/Cli/Agreement.antt =====
-- `is_logged_in` of client_cli/src/main.rs against the session of its connection at the server: the menu
-- loop over the handlers of server/src/connection_handler.rs.
use stss.Prelude.{
  ℕ, Bool, true, false, Option, none, some, List, [], ◌∷◌, String, Result, ok, err, ◌≡◌, refl,
  arith, if◌then◌else◌,
}
use mathlib.Core.Path.{subst⁻¹}
use stss.Protocol.{Request}
use stss.Client.Exchange.{IsCodec}
use stss.Connection.Types.{SocketAddr, Signer, Externals, StsServerState, Round}
use stss.Connection.Handler.{Phase, guest, in_session, closed, crashed, conn_round}
use stss.Cli.{Action, options, offers, choice_of, request_of}
use stss.Cli.Link.{
  Fate, carried, unsent, lost, Link, Agrees, IsInSync, still_alive, exchanged, exchange, requested,
  act, session,
}
use stss.Server.Accept.{is_over}
use stss.Cli.Steps.{guest_requested, session_requested, guest_good, session_good}

module _ (x : Externals) (key : x.crypto.RsaPrivateKey) (signer : Signer)
    (address : SocketAddr) where
  over_exchanged :
      (action : Action) (request : Request) (round : Round) (bytes : Result String (List ℕ))
      (l : Link)
      → is_over l.phase ≡ true
      → IsInSync (exchanged x key signer address action request (carried round) bytes l)
  unfolding exchanged conn_round
  over_exchanged action request round (err text) l h = λ _. ground (arith, h)
  over_exchanged action request round (ok bytes) l h = λ _. ground (arith, h)

  over_requested :
      (action : Action) (o : Option Request) (round : Round) (l : Link)
      → is_over l.phase ≡ true
      → IsInSync (requested x key signer address action o (carried round) l)
  unfolding exchange
  over_requested action none round l h = λ _. ground (arith, h)
  over_requested action (some request) round l h =
      over_exchanged action request round (x.codec.serialize_request request) l h

  carried_requested :
      (action : Action) (round : Round) (flag : Bool) (phase : Phase) (st : StsServerState)
      → IsCodec x.codec
      → Agrees flag phase
      → offers (options flag) (choice_of action) ≡ true
      → IsInSync (
          requested x key signer address action
            (request_of action)
            (carried round)
            (record { is_logged_in = flag; phase = phase; shared = st; alive = true }))
  carried_requested action round false guest st law h o =
      guest_requested x key signer address action (request_of action) round st law
        (λ request e. guest_good x key signer address action request st o e)
  carried_requested action round true guest st law h o = cc
  carried_requested action round true (in_session s) st law h o =
      session_requested x key signer address action s (request_of action) round st law
        (λ request e. session_good x key signer address action s request st e)
  carried_requested action round false (in_session s) st law h o = cc
  carried_requested action round flag (closed r) st law h o =
      over_requested action (request_of action) round _ refl
  carried_requested action round flag crashed st law h o =
      over_requested action (request_of action) round _ refl

  broken_requested :
      (action : Action) (o : Option Request) (fate : Fate) (l : Link)
      → still_alive x key signer address fate ≡ false
      → IsInSync l
      → IsInSync (requested x key signer address action o fate l)
  unfolding exchange exchanged
  broken_requested action none fate l d h = h
  broken_requested action (some request) fate l d h = λ alive. cc

  pick :
      (a b : Bool) (m l : Link)
      → IsInSync l
      → (a ≡ true → b ≡ true → IsInSync m)
      → IsInSync (if a then (if b then m else l) else l)
  pick true true m l h k = k refl refl
  pick true false m l h k = h
  pick false b m l h k = h

  served_requested :
      (action : Action) (fate : Fate) (l : Link)
      → IsCodec x.codec
      → IsInSync l
      → offers (options l.is_logged_in) (choice_of action) ≡ true
      → l.alive ≡ true
      → IsInSync (requested x key signer address action (request_of action) fate l)
  served_requested action (carried round) l law h o a =
      subst⁻¹
        (λ b. IsInSync (
          requested x key signer address action (request_of action) (carried round) (record {
            is_logged_in = l.is_logged_in;
            phase = l.phase;
            shared = l.shared;
            alive = b;
          })))
        a (carried_requested action round l.is_logged_in l.phase l.shared law (h a) o)
  served_requested action (unsent text) l law h o a =
      broken_requested action (request_of action) (unsent text) l refl h
  served_requested action (lost round) l law h o a =
      broken_requested action (request_of action) (lost round) l refl h

  act-IsInSync :
      (action : Action) (fate : Fate) (l : Link)
      → IsCodec x.codec
      → IsInSync l
      → IsInSync (act x key signer address action fate l)
  unfolding act
  act-IsInSync action fate l law h =
      pick (offers (options l.is_logged_in) (choice_of action)) l.alive
        (requested x key signer address action (request_of action) fate l) l h
        (served_requested action fate l law h)

  -- With a codec that reads back what it writes: from a connection on which they agree, such as a new one,
  -- `is_logged_in` of the client and the connection's phase at the server agree after any session at
  -- the menu in which the connection has not broken, as long as the handler runs: the flag is set
  -- exactly in a session.
  pub session-IsInSync :
      (steps : List (Action × Fate)) (l : Link)
      → IsCodec x.codec
      → IsInSync l
      → IsInSync (session x key signer address steps l)
  unfolding session
  session-IsInSync [] l law h = h
  session-IsInSync ((action, fate) ∷ rest) l law h =
      session-IsInSync rest (act x key signer address action fate l) law
        (act-IsInSync action fate l law h)
