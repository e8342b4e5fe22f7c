-- ===== src/Connection/Locks.antt =====
-- Who holds which name in `logged_users` of server/src/connection_handler.rs: what one round of a
-- connection does to the set.
use stss.Prelude.{◌≡◌, refl, false, Option, none, some, String, Result, ok, err, arith, List, ◌∷◌}
use mathlib.Core.Path.{subst}
use stss.Protocol.{Request}
use stss.Connection.Types.{
  SocketAddr, NetworkError, Session, Signer, Externals, StsServerState, Round, contains, remove,
  insert,
}
use stss.Connection.{
  Answer, answer, failed, panicked, fetch_next_request, start_session, handle_login, handle_sign_up,
  guest_request,
}
use stss.Connection.Requests.{
  handle_purchase, handle_count, refund, store_record, deliver, handle_history, after_subtraction,
  sign_at, handle_sign_hash, session_request,
}
use stss.Connection.Handler.{
  Phase, guest, in_session, closed, crashed, guest_answered, guest_fetched, guest_round,
  session_fetched, session_round, after_session, conn_round, Turn,
}

abbrev pub session_name : Phase → Option String
session_name (in_session s) = some s.username
session_name _ = none

-- The set of locked names before and after a round, with the name of the connection's session
-- before and after it.
pub data LockStep : Option String → List String → Option String → List String → Type 0 where
  stays : {a : Option String} {us : List String} → LockStep a us a us
  taken :
      {us : List String} (n : String) → contains n us ≡ false → LockStep none us (some n) (n ∷ us)
  leaked : {us : List String} (n : String) → contains n us ≡ false → LockStep none us none (n ∷ us)
  freed : {us : List String} (n : String) → LockStep (some n) us none (remove n us)
  abandoned : {us : List String} (n : String) → LockStep (some n) us none us

abbrev GuestLock : List String → Answer (Option Session) × StsServerState → Type 0
GuestLock us (answer _ (some s), st) =
    (contains s.username us ≡ false) × (st.logged_users ≡ s.username ∷ us)
GuestLock us (answer _ none, st) = st.logged_users ≡ us
GuestLock us (failed _, st) = st.logged_users ≡ us
GuestLock us (panicked, st) = st.logged_users ≡ us

module _ (x : Externals) where
  guest_request-GuestLock :
      (address : SocketAddr) (round : Round) (request : Request) (st : StsServerState)
      → GuestLock st.logged_users (guest_request x address round request st)
  unfolding guest_request handle_login handle_sign_up start_session insert
  guest_request-GuestLock address round request st = ground arith

  guest_answered-LockStep :
      (us : List String) (round : Round) (r : Answer (Option Session)) (st : StsServerState)
      → GuestLock us (r, st)
      → LockStep none us (session_name (guest_answered x round r)) st.logged_users
  unfolding guest_answered
  guest_answered-LockStep us round (answer response none) st h =
      let same : LockStep none us none us = stays in ground (arith, same)
  guest_answered-LockStep us round (answer response (some s)) st h =
      let new : LockStep none us (some s.username) (s.username ∷ us) = taken s.username h.0 in
      let lost : LockStep none us none (s.username ∷ us) = leaked s.username h.0 in
      ground (arith, new, lost)
  guest_answered-LockStep us round (failed e) st h =
      let same : LockStep none us none us = stays in ground (arith, same)
  guest_answered-LockStep us round panicked st h =
      let same : LockStep none us none us = stays in ground (arith, same)

  guest_fetched-LockStep :
      (address : SocketAddr) (round : Round) (r : Result NetworkError (Option Request))
      (st : StsServerState)
      → let (phase, st') = guest_fetched x address round r st in
        LockStep none st.logged_users (session_name phase) st'.logged_users
  unfolding guest_fetched
  guest_fetched-LockStep address round (err e) st = stays
  guest_fetched-LockStep address round (ok none) st = stays
  guest_fetched-LockStep address round (ok (some request)) st =
      let (a, st') = guest_request x address round request st in
      guest_answered-LockStep st.logged_users round a st'
        (guest_request-GuestLock address round request st)

  module _ (key : x.crypto.RsaPrivateKey) (signer : Signer) where
    session_request-users :
        (name : String) (round : Round) (request : Request) (st : StsServerState)
        → (session_request x key signer name round request st).1.logged_users ≡ st.logged_users
    unfolding session_request handle_sign_hash handle_purchase handle_count handle_history
        after_subtraction sign_at deliver refund store_record
    session_request-users name round request st = ground arith

    after_session-LockStep :
        (session : Session) (turn : Turn) (st : StsServerState)
        → let (phase, st') = after_session x session turn st in
          LockStep (some session.username) st.logged_users (session_name phase) st'.logged_users
    unfolding after_session
    after_session-LockStep session turn st =
        let n = session.username in
        let same : LockStep (some n) st.logged_users (some n) st.logged_users = stays in
        let free : LockStep (some n) st.logged_users none (remove n st.logged_users) = freed n in
        let lost : LockStep (some n) st.logged_users none st.logged_users = abandoned n in
        ground (arith, same, free, lost)

    pub session_fetched-users :
        (session : Session) (round : Round) (r : Result NetworkError (Option Request))
        (st : StsServerState)
        → (session_fetched x key signer session round r st).1.logged_users ≡ st.logged_users
    unfolding session_fetched
    session_fetched-users session round (err e) st = refl
    session_fetched-users session round (ok none) st = refl
    session_fetched-users session round (ok (some request)) st =
        session_request-users session.username round request st

    pub conn_round-LockStep :
        (address : SocketAddr) (phase : Phase) (round : Round) (st : StsServerState)
        → let (phase', st') = conn_round x key signer address phase round st in
          LockStep (session_name phase) st.logged_users (session_name phase') st'.logged_users
    unfolding conn_round guest_round session_round
    conn_round-LockStep address guest round st =
        guest_fetched-LockStep address round (fetch_next_request x address round.polled) st
    conn_round-LockStep address (in_session session) round st =
        let r = fetch_next_request x session.address round.polled in
        let (turn, st') = session_fetched x key signer session round r st in
        subst
          (λ us.
            LockStep (some session.username) us (session_name (after_session x session turn st').0)
              (after_session x session turn st').1.logged_users)
          (session_fetched-users session round r st) (after_session-LockStep session turn st')
    conn_round-LockStep address (closed r) round st = stays
    conn_round-LockStep address crashed round st = stays
