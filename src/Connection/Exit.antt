-- ===== src/Connection/Exit.antt =====
-- How a session of server/src/connection_handler.rs ends, and what is left of it in `logged_users`.
use stss.Prelude.{◌≡◌, refl, true, false, none, some, String, ok, err, arith, List, [], ◌∷◌, eq_iff}
use stss.Protocol.{Request, Response}
use stss.Protocol.Limits.{credentials_length_error}
use stss.Database.{verify_user_password}
use stss.Connection.Types.{
  SocketAddr, Session, Signer, HandlerError, Externals, StsServerState, Round, contains, remove,
}
use stss.Connection.{fetch_next_request}
use stss.Connection.Handler.{
  Phase, guest, in_session, closed, crashed, Turn, session_fetched, session_round, after_session,
  conn_round, send_response,
}
use stss.Connection.Locks.{session_fetched-users}
use stss.Connection.World.{Conn, World, Event, turn, turn_at, step, run, held}
use stss.Connection.Exclusion.{orphaned_lock_persists}
use stss.Connection.Access.{unsent_login_stays_locked}

not_contains-remove : (name : String) (us : List String) → contains name (remove name us) ≡ false
unfolding contains remove
not_contains-remove name [] = refl
not_contains-remove name (u ∷ us) = ground (arith, not_contains-remove name us)

contains-here : (name : String) (us : List String) → contains name (name ∷ us) ≡ true
unfolding contains
contains-here name us = ground (arith, eq_iff name name)

-- The state of the connection and of the set after a round of a session.
abbrev pub ExitPost : Session → StsServerState → Phase × StsServerState → Type 0
ExitPost session st (in_session s, st') = (s ≡ session) × (st'.logged_users ≡ st.logged_users)
ExitPost session st (guest, st') = contains session.username st'.logged_users ≡ false
ExitPost session st (closed _, st') = contains session.username st'.logged_users ≡ false
ExitPost session st (crashed, st') = st'.logged_users ≡ st.logged_users

ExitPost-same :
    (session : Session) (st u : StsServerState) (phase : Phase) (st' : StsServerState)
    → u.logged_users ≡ st.logged_users
    → ExitPost session u (phase, st')
    → ExitPost session st (phase, st')
ExitPost-same session st u (in_session s) st' e h = (h.0, cc)
ExitPost-same session st u guest st' e h = h
ExitPost-same session st u (closed r) st' e h = h
ExitPost-same session st u crashed st' e h = cc

module _ (x : Externals) where
  after_session-ExitPost :
      (session : Session) (t : Turn) (st : StsServerState)
      → ExitPost session st (after_session x session t st)
  unfolding after_session
  after_session-ExitPost session t st =
      ground (arith, not_contains-remove session.username st.logged_users)

  module _ (key : x.crypto.RsaPrivateKey) (signer : Signer) where
    -- A round of a session leaves the session as it is and the locked names too; or the session is
    -- over and the name is unlocked, whether it ended by a logout, by the end of the stream or by
    -- an error; or the task has panicked, and the locked names are as before.
    pub session_round-ExitPost :
        (address : SocketAddr) (session : Session) (round : Round) (st : StsServerState)
        → ExitPost session st (conn_round x key signer address (in_session session) round st)
    unfolding conn_round session_round
    session_round-ExitPost address session round st =
        let r = fetch_next_request x session.address round.polled in
        let (t, u) = session_fetched x key signer session round r st in
        let (phase, st') = after_session x session t u in
        ExitPost-same session st u phase st' (session_fetched-users x key signer session round r st)
          (after_session-ExitPost session t u)

    -- A login that was accepted, under a free name that no other connection has a session of, but
    -- not answered, because its response could not be serialized or sent, locks the user out:
    -- after any further events no connection is in a session of the user, and the name is still
    -- locked.
    pub unsent_login_locks_out :
        (address : SocketAddr) (round : Round) (name password : String) (cs : List Conn)
        (st : StsServerState) (e : HandlerError) (es : List Event)
        → fetch_next_request x address round.polled ≡ ok (some (Request.login name password))
        → credentials_length_error name password ≡ none
        → (verify_user_password x.hasher name password st.database).0 ≡ ok tt
        → contains name st.logged_users ≡ false
        → send_response x round Response.ok ≡ err e
        → held name cs ≡ 0
        → let w : World = record {
          connections = record { address = address; phase = guest } ∷ cs;
          shared = st;
        } in
          let w' = run x key signer (turn 0 round ∷ es) w in
          (contains name w'.shared.logged_users ≡ true) × (held name w'.connections ≡ 0)
    unfolding run step turn_at conn_round
    unsent_login_locks_out address round name password cs st e es fetched short verified free unsent
          alone =
        let (over, locked) =
          unsent_login_stays_locked x address round name password st e fetched short verified free
            unsent in
        orphaned_lock_persists x key signer name es _
          (rw locked (contains-here name st.logged_users)) (rw over (omega (arith, alone)))
