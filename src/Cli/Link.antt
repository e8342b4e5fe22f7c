-- ===== src/Cli/Link.antt =====
-- The menu loop of client_cli/src/main.rs with its connection at the server: what an action does to the
-- client's flag and, through the handlers of server/src/connection_handler.rs, to the server.
use stss.Prelude.{
  ℕ, Bool, true, false, Option, none, some, List, [], ◌∷◌, String, Result, ok, err, ◌≡◌,
  if◌then◌else◌,
}
use stss.Protocol.{Request}
use stss.Client.{Wire, send_request}
use stss.Client.Exchange.{fed, response_in, next_item}
use stss.Connection.Types.{SocketAddr, Signer, Externals, StsServerState, Round}
use stss.Connection.Handler.{Phase, guest, in_session, conn_round}
use stss.Cli.{Action, options, offers, choice_of, request_of, logged_in_after}

-- What becomes of a request: the server has it and its response, if it sends one, arrives; or the
-- connection breaks, before the request is sent or before the response arrives.
pub data Fate : Type 0 where
  carried : Round → Fate
  unsent : String → Fate
  lost : Round → Fate

-- The client's flag, its connection at the server, what the server shares, and whether the
-- connection is there.
pub record Link : Type 0 where
  pub is_logged_in : Bool
  pub phase : Phase
  pub shared : StsServerState
  pub alive : Bool

abbrev pub Agrees : Bool → Phase → Type 0
Agrees flag guest = flag ≡ false
Agrees flag (in_session _) = flag ≡ true
Agrees flag _ = Unit

abbrev pub IsInSync : Link → Type 0
IsInSync l = l.alive ≡ true → Agrees l.is_logged_in l.phase

module _ (x : Externals) (key : x.crypto.RsaPrivateKey) (signer : Signer)
    (address : SocketAddr) where
  -- The client's side of the wire, for a request with these bytes; without bytes nothing is sent.
  unfoldable pub wire_of : Fate → Result String (List ℕ) → Request → Link → Wire
  unfolding next_item response_in
  wire_of (unsent text) bytes request l = record { sent = err text; next = none }
  wire_of (carried round) (ok bytes) request l = record {
    sent = ok tt;
    next =
        next_item x key signer (fed bytes round)
          (response_in x key signer address l.phase (fed bytes round) request l.shared);
  }
  wire_of fate bytes request l = record { sent = ok tt; next = none }

  abbrev pub still_alive : Fate → Bool
  still_alive (carried round) = true
  still_alive _ = false

  -- The server's side: a request that cannot be serialized is not sent.
  abbrev pub served : Fate → Result String (List ℕ) → Link → Phase × StsServerState
  served (unsent text) bytes l = (l.phase, l.shared)
  served fate (err text) l = (l.phase, l.shared)
  served (lost round) (ok bytes) l =
      conn_round x key signer address l.phase (fed bytes round) l.shared
  served (carried round) (ok bytes) l =
      conn_round x key signer address l.phase (fed bytes round) l.shared

  unfoldable pub exchanged : Action → Request → Fate → Result String (List ℕ) → Link → Link
  unfolding wire_of
  exchanged action request fate bytes l =
      let (phase, st) = served fate bytes l in
      record {
        is_logged_in =
            logged_in_after action l.is_logged_in
              (send_request x.codec request (wire_of fate bytes request l));
        phase = phase;
        shared = st;
        alive = still_alive fate;
      }

  unfoldable pub exchange : Action → Request → Fate → Link → Link
  unfolding exchanged
  exchange action request fate l =
      exchanged action request fate (x.codec.serialize_request request) l

  abbrev pub requested : Action → Option Request → Fate → Link → Link
  requested action none fate l = l
  requested action (some request) fate l = exchange action request fate l

  -- A round of the menu. A choice that is not offered cannot be made; on a broken connection no
  -- request gets through.
  unfoldable pub act : Action → Fate → Link → Link
  unfolding exchange request_of
  act action fate l =
      if offers (options l.is_logged_in) (choice_of action)
      then (if l.alive then requested action (request_of action) fate l else l)
      else l

  unfoldable pub session : List (Action × Fate) → Link → Link
  unfolding act
  session [] l = l
  session ((action, fate) ∷ rest) l = session rest (act action fate l)
