-- ===== src/Connection/Validity.antt =====
-- The schema's invariant under the handlers of server/src/connection_handler.rs, on every schedule
-- of every number of connections.
use mathlib.Core.Path.{subst⁻¹}
use stss.Protocol.Limits.{credentials_length_error}
use stss.Prelude.{
  Bool, inl, inr, Option-cases, ℕ, zero, suc, ◌≡◌, refl, Option, none, some, String, Result, ok,
  err, arith, List, [], ◌∷◌, ==_iff, length,
}
use stss.Protocol.{Sha256Hash, RsaSignature, IsRsaSignature, Timestamp, Request}
use stss.Protocol.Signing.{
  Crypto, Outcome, returned, panicked, sign_with_timestamp, signature_try_from, finish_signature,
  expect_signature,
}
use stss.Protocol.Timestamps.{new}
use stss.TimeOracle.{since_epoch, time_now}
use stss.Database.{
  PasswordHasher, verify_user_password, get_user_tokens, get_user_history, subtract_user_tokens,
}
use stss.Database.Schema.{SubtractTokensError}
use stss.Database.Monad.{Sqlite}
use stss.Database.Invariant.{
  try_register_user-Change, add_user_tokens-Change, subtract_user_tokens-Change,
  add_user_record-Change,
}
use stss.Database.Safety.{IsValid, Change-IsValid}
use stss.Connection.Types.{
  SocketAddr, NetworkError, Session, SignError, Signer, Externals, StsServerState, Round,
}
use stss.Connection.{
  fetch_next_request, start_session, handle_login, handle_sign_up, guest_request,
  generate_timestamp_signature,
}
use stss.Connection.Requests.{
  handle_purchase, handle_count, refund, store_record, deliver, handle_history, sign_at,
  after_subtraction, handle_sign_hash, session_request,
}
use stss.Connection.Handler.{
  Phase, guest, in_session, closed, crashed, Turn, guest_fetched, guest_round, session_fetched,
  session_round, after_session, conn_round,
}
use stss.Connection.World.{
  Conn, World, Event, accepted, turn, cancelled, synced, turn_at, step, run,
}

abbrev Valid : StsServerState → Type 0
Valid st = IsValid st.database.tables

verify_user_password-tables :
    (h : PasswordHasher) (name password : String) (s : Sqlite)
    → (verify_user_password h name password s).1.tables ≡ s.tables
unfolding verify_user_password
verify_user_password-tables h name password s = ground arith

get_user_tokens-tables : (name : String) (s : Sqlite) → (get_user_tokens name s).1.tables ≡ s.tables
unfolding get_user_tokens
get_user_tokens-tables name s = ground arith

get_user_history-tables :
    (hex_encode : List ℕ → String) (name : String) (s : Sqlite)
    → (get_user_history hex_encode name s).1.tables ≡ s.tables
unfolding get_user_history
get_user_history-tables hex_encode name s = refl

-- A signature that comes back has 256 bytes.
abbrev Sized : Outcome (Result SignError RsaSignature) → Type 0
Sized (returned (ok s)) = IsRsaSignature s
Sized _ = Unit

generate-Sized :
    (c : Crypto) (signer : Signer) (joined : Bool) (key : c.RsaPrivateKey) (h : Sha256Hash)
    (t : Timestamp)
    → Sized (generate_timestamp_signature c signer joined key h t)
unfolding generate_timestamp_signature sign_with_timestamp finish_signature expect_signature
    signature_try_from
generate-Sized c signer joined key h t = ground (arith, λ (bs : List ℕ). ==_iff (length bs) 256)

module _ (x : Externals) where
  handle_login-tables :
      (address : SocketAddr) (name password : String) (st : StsServerState)
      → (handle_login x address name password st).1.database.tables ≡ st.database.tables
  unfolding handle_login start_session
  handle_login-tables address name password st =
      ground (arith, verify_user_password-tables x.hasher name password st.database)

  handle_sign_up-IsValid :
      (address : SocketAddr) (salt name password : String) (st : StsServerState)
      → Valid st
      → Valid (handle_sign_up x address salt name password st).1
  unfolding handle_sign_up
  handle_sign_up-IsValid address salt name password st v =
      elim (Option-cases (credentials_length_error name password)) [
        | inl e ↦
            rw (e, handle_sign_up)
              (Change-IsValid
                (try_register_user-Change x.hasher name password address.ip salt st.database) v)
        | inr (reason, e) ↦ rw (e, handle_sign_up) v
      ]

  guest_request-IsValid :
      (address : SocketAddr) (round : Round) (request : Request) (st : StsServerState)
      → Valid st
      → Valid (guest_request x address round request st).1
  unfolding guest_request
  guest_request-IsValid address round (Request.login name password) st v =
      subst⁻¹ IsValid (handle_login-tables address name password st) v
  guest_request-IsValid address round (Request.sign_up name password) st v =
      handle_sign_up-IsValid address round.salt name password st v
  guest_request-IsValid address round Request.log_out st v = v
  guest_request-IsValid address round (Request.sign_hash h) st v = v
  guest_request-IsValid address round (Request.purchase_tokens n) st v = v
  guest_request-IsValid address round Request.how_many_tokens_do_i_have st v = v
  guest_request-IsValid address round Request.history st v = v

  guest_fetched-IsValid :
      (address : SocketAddr) (round : Round) (r : Result NetworkError (Option Request))
      (st : StsServerState)
      → Valid st
      → Valid (guest_fetched x address round r st).1
  unfolding guest_fetched
  guest_fetched-IsValid address round (err e) st v = v
  guest_fetched-IsValid address round (ok none) st v = v
  guest_fetched-IsValid address round (ok (some request)) st v =
      guest_request-IsValid address round request st v

  module _ (key : x.crypto.RsaPrivateKey) (signer : Signer) where
    deliver-IsValid :
        (name : String) (h : Sha256Hash) (t : Timestamp)
        (o : Outcome (Result SignError RsaSignature)) (st : StsServerState)
        → Sized o
        → Valid st
        → Valid (deliver name h t o st).1
    unfolding deliver refund store_record
    deliver-IsValid name h t panicked st size v = v
    deliver-IsValid name h t (returned (err e)) st size v =
        Change-IsValid (add_user_tokens-Change name 1 st.database v.accounts) v
    deliver-IsValid name h t (returned (ok sign)) st size v =
        Change-IsValid (add_user_record-Change name t sign st.database size) v

    sign_at-IsValid :
        (name : String) (round : Round) (h : Sha256Hash) (now : Option ℕ) (st : StsServerState)
        → Valid st
        → Valid (sign_at x key signer name round h now st).1
    unfolding sign_at
    sign_at-IsValid name round h none st v = v
    sign_at-IsValid name round h (some nanos) st v =
        deliver-IsValid name h (new nanos) _ st
          (generate-Sized x.crypto signer round.joined key h (new nanos)) v

    after_subtraction-IsValid :
        (name : String) (round : Round) (h : Sha256Hash) (r : Result SubtractTokensError ℕ)
        (st : StsServerState)
        → Valid st
        → Valid (after_subtraction x key signer name round h r st).1
    unfolding after_subtraction
    after_subtraction-IsValid name round h (err e) st v = v
    after_subtraction-IsValid name round h (ok _) st v =
        sign_at-IsValid name round h (since_epoch (time_now round.local_now st.offset_nanos)) st v

    session_request-IsValid :
        (name : String) (round : Round) (request : Request) (st : StsServerState)
        → Valid st
        → Valid (session_request x key signer name round request st).1
    unfolding session_request handle_sign_hash handle_purchase handle_count handle_history
    session_request-IsValid name round (Request.login _ _) st v = v
    session_request-IsValid name round (Request.sign_up _ _) st v = v
    session_request-IsValid name round Request.log_out st v = v
    session_request-IsValid name round (Request.sign_hash h) st v =
        let (r, db) = subtract_user_tokens name 1 st.database in
        after_subtraction-IsValid name round h r (record st { database = db })
          (Change-IsValid (subtract_user_tokens-Change name 1 st.database v.accounts) v)
    session_request-IsValid name round (Request.purchase_tokens n) st v =
        Change-IsValid (add_user_tokens-Change name n st.database v.accounts) v
    session_request-IsValid name round Request.how_many_tokens_do_i_have st v =
        subst⁻¹ IsValid (get_user_tokens-tables name st.database) v
    session_request-IsValid name round Request.history st v =
        subst⁻¹ IsValid (get_user_history-tables x.hex_encode name st.database) v

    session_fetched-IsValid :
        (session : Session) (round : Round) (r : Result NetworkError (Option Request))
        (st : StsServerState)
        → Valid st
        → Valid (session_fetched x key signer session round r st).1
    unfolding session_fetched
    session_fetched-IsValid session round (err e) st v = v
    session_fetched-IsValid session round (ok none) st v = v
    session_fetched-IsValid session round (ok (some request)) st v =
        session_request-IsValid session.username round request st v

    after_session-database :
        (session : Session) (t : Turn) (st : StsServerState)
        → (after_session x session t st).1.database ≡ st.database
    unfolding after_session
    after_session-database session t st = ground arith

    conn_round-IsValid :
        (address : SocketAddr) (phase : Phase) (round : Round) (st : StsServerState)
        → Valid st
        → Valid (conn_round x key signer address phase round st).1
    unfolding conn_round guest_round session_round
    conn_round-IsValid address guest round st v =
        guest_fetched-IsValid address round (fetch_next_request x address round.polled) st v
    conn_round-IsValid address (in_session session) round st v =
        let r = fetch_next_request x session.address round.polled in
        let (t, st') = session_fetched x key signer session round r st in
        subst⁻¹ (λ (db : Sqlite). IsValid db.tables) (after_session-database session t st')
          (session_fetched-IsValid session round r st v)
    conn_round-IsValid address (closed r) round st v = v
    conn_round-IsValid address crashed round st v = v

    turn_at-IsValid :
        (n : ℕ) (round : Round) (cs : List Conn) (st : StsServerState)
        → Valid st
        → Valid (turn_at x key signer n round cs st).1
    unfolding turn_at
    turn_at-IsValid n round [] st v = v
    turn_at-IsValid zero round (c ∷ cs) st v = conn_round-IsValid c.address c.phase round st v
    turn_at-IsValid (suc n) round (c ∷ cs) st v = turn_at-IsValid n round cs st v

    -- From tables that satisfy the schema's invariant, every schedule of accepted connections,
    -- their rounds (with whatever the clients send and whatever fails), cancellations and new
    -- clock offsets leads to tables that satisfy it.
    pub run-IsValid :
        (es : List Event) (w : World)
        → IsValid w.shared.database.tables
        → IsValid (run x key signer es w).shared.database.tables
    unfolding run step
    run-IsValid [] w v = v
    run-IsValid (accepted address ∷ es) w v = run-IsValid es _ v
    run-IsValid (turn n round ∷ es) w v =
        run-IsValid es _ (turn_at-IsValid n round w.connections w.shared v)
    run-IsValid (cancelled ∷ es) w v = run-IsValid es _ v
    run-IsValid (synced offset ∷ es) w v = run-IsValid es _ v
