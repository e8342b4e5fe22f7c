-- ===== src/Connection/Access.antt =====
-- Getting into a session and out of it: logins in server/src/connection_handler.rs.
use stss.Prelude.{◌≡◌, true, false, Option, none, some, String, Result, ok, err, arith, ◌∷◌}
use stss.Protocol.{Request, Response}
use stss.Protocol.Limits.{credentials_length_error}
use stss.Database.{verify_user_password}
use stss.Database.{PasswordHasher}
use stss.Database.Schema.{AuthenticationError}
use stss.Database.Monad.{Sqlite}
use stss.Database.Accounts.{accepts, VerifyPost, verify_user_password-VerifyPost}
use stss.Connection.Types.{
  SocketAddr, Session, Externals, StsServerState, Round, HandlerError, NetworkError, contains,
  insert,
}
use stss.Connection.{
  Answer, answer, failed, panicked, fetch_next_request, start_session, handle_login, handle_sign_up,
  guest_request,
}
use stss.Connection.Handler.{
  Phase, in_session, closed, guest_answered, guest_fetched, guest_round, send_response, guest_phase,
}

accepted :
    (h : PasswordHasher) (name password : String) (s : Sqlite)
    (r : Result AuthenticationError (Unit {0}) × Sqlite)
    → VerifyPost h name password s r
    → r.0 ≡ ok tt
    → accepts h name password s.tables ≡ true
accepted h name password s (ok _, s') post e = post.1
accepted h name password s (err _, s') post e = cc

module _ (x : Externals) where
  -- What stands behind a session that starts: a login whose password the stored hash accepts, under a
  -- name that was free and is locked now.
  abbrev pub Admitted :
      SocketAddr
      → Result NetworkError (Option Request)
      → StsServerState
      → Session
      → StsServerState
      → Type 0
  Admitted address (ok (some (Request.login name password))) st session st' =
      (session ≡ record { address = address; username = name })
      × (accepts x.hasher name password st.database.tables ≡ true)
      × (contains name st.logged_users ≡ false)
      × (st'.logged_users ≡ name ∷ st.logged_users)
  Admitted address _ st session st' = ⊥

  abbrev Started :
      SocketAddr → Request → StsServerState → Answer (Option Session) × StsServerState → Type 0
  Started address request st (answer _ (some session), st') =
      Admitted address (ok (some request)) st session st'
  Started address request st _ = Unit

  handle_login-Started :
      (address : SocketAddr) (name password : String) (st : StsServerState)
      → Started address (Request.login name password) st (handle_login x address name password st)
  unfolding handle_login start_session insert
  handle_login-Started address name password st =
      let post = verify_user_password-VerifyPost x.hasher name password st.database in
      ground (
        arith,
        accepted x.hasher name password st.database
            (verify_user_password x.hasher name password st.database) post,
      )

  guest_request-Started :
      (address : SocketAddr) (round : Round) (request : Request) (st : StsServerState)
      → Started address request st (guest_request x address round request st)
  unfolding guest_request handle_sign_up
  guest_request-Started address round (Request.login name password) st =
      handle_login-Started address name password st
  guest_request-Started address round (Request.sign_up name password) st = ground arith
  guest_request-Started address round Request.log_out st = tt
  guest_request-Started address round (Request.sign_hash h) st = tt
  guest_request-Started address round (Request.purchase_tokens n) st = tt
  guest_request-Started address round Request.how_many_tokens_do_i_have st = tt
  guest_request-Started address round Request.history st = tt

  abbrev pub EntryPost :
      SocketAddr
      → Result NetworkError (Option Request)
      → StsServerState
      → Phase × StsServerState
      → Type 0
  EntryPost address r st (in_session session, st') = Admitted address r st session st'
  EntryPost address r st _ = Unit

  guest_answered-EntryPost :
      (address : SocketAddr) (round : Round) (request : Request) (st : StsServerState)
      (a : Answer (Option Session)) (st' : StsServerState)
      → Started address request st (a, st')
      → EntryPost address (ok (some request)) st (guest_answered x round a, st')
  unfolding guest_answered
  guest_answered-EntryPost address round request st (answer response (some session)) st' h =
      elim (send_response x round response)
        as (λ r. EntryPost address (ok (some request)) st (guest_phase x (some session) r, st')) [
          | ok _ ↦ h
          | err e ↦ tt
        ]
  guest_answered-EntryPost address round request st (answer response none) st' h =
      elim (send_response x round response)
        as (λ r. EntryPost address (ok (some request)) st (guest_phase x none r, st')) [
          | ok _ ↦ tt
          | err e ↦ tt
        ]
  guest_answered-EntryPost address round request st (failed e) st' h = tt
  guest_answered-EntryPost address round request st panicked st' h = tt

  guest_fetched-EntryPost :
      (address : SocketAddr) (round : Round) (r : Result NetworkError (Option Request))
      (st : StsServerState)
      → EntryPost address r st (guest_fetched x address round r st)
  unfolding guest_fetched
  guest_fetched-EntryPost address round (err e) st = tt
  guest_fetched-EntryPost address round (ok none) st = tt
  guest_fetched-EntryPost address round (ok (some request)) st =
      let (a, st') = guest_request x address round request st in
      guest_answered-EntryPost address round request st a st'
        (guest_request-Started address round request st)

  -- If a guest's round ends in a session, its request was a login; the session has its name and
  -- the connection's address; the hash stored for the name accepts the password; the name was not
  -- in `logged_users` before the round, and is what the round has added to it.
  pub guest_round-EntryPost :
      (address : SocketAddr) (round : Round) (st : StsServerState)
      → EntryPost address
          (fetch_next_request x address round.polled)
          st
          (guest_round x address round st)
  unfolding guest_round
  guest_round-EntryPost address round st =
      guest_fetched-EntryPost address round (fetch_next_request x address round.polled) st

  -- A login that is accepted, under a free name, while the response cannot be serialized or sent: the
  -- connection is closed with the error, and the name stays in `logged_users`.
  pub unsent_login_stays_locked :
      (address : SocketAddr) (round : Round) (name password : String) (st : StsServerState)
      (e : HandlerError)
      → fetch_next_request x address round.polled ≡ ok (some (Request.login name password))
      → credentials_length_error name password ≡ none
      → (verify_user_password x.hasher name password st.database).0 ≡ ok tt
      → contains name st.logged_users ≡ false
      → send_response x round Response.ok ≡ err e
      → let (phase, st') = guest_round x address round st in
        (phase ≡ closed (err e)) × (st'.logged_users ≡ name ∷ st.logged_users)
  unfolding guest_round guest_fetched guest_answered guest_request handle_login start_session insert
  unsent_login_stays_locked address round name password st e fetched short verified free unsent =
      rw (fetched, guest_round) (ground arith)
