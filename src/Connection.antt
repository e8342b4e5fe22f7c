-- ===== src/Connection.antt =====
-- server/src/connection_handler.rs: `conn_handler_core` and `session_handler`, one round of their
-- loops at a time, and a connection as a sequence of rounds. Logging is left out. The proofs are in
-- the modules below.
pub mod Types
pub mod Text
pub mod Requests
pub mod Handler
pub mod Locks
pub mod Validity
pub mod Access
pub mod Exit
pub mod Accounting
pub mod SignHash
pub mod Delivery
pub mod Refund
pub mod World
pub mod Exclusion
use stss.Prelude.{
  ℕ, Bool, true, false, Option, none, some, List, [], ◌∷◌, String, Result, ok, err, ℤ,
  if◌then◌else◌,
}
use stss.Protocol.{Sha256Hash, RsaSignature, Timestamp, Request, Response, LoginError, SignInError}
use stss.Protocol.Limits.{credentials_length_error}
use stss.Protocol.Signing.{Crypto, Outcome, returned, sign_with_timestamp}
use stss.TimeOracle.{time_now, since_epoch}
use stss.Database.{
  verify_user_password, try_register_user, get_user_tokens, add_user_tokens, subtract_user_tokens,
  add_user_record, get_user_history,
}
use stss.Database.Schema.{
  AuthenticationError, user_not_found, invalid_password, RegistrationError, user_already_exists,
  GetTokensError, token_integrity_check_violated, AddTokensError, token_overflow,
  SubtractTokensError, insufficient_tokens, UserHistoryError, timestamp_integrity_violated,
  hash_integrity_violated, AddRecordError,
}
use stss.Connection.Types.{
  ErrorKind, broken_pipe, connection_reset, connection_aborted, timed_out, network_down,
  unexpected_eof, invalid_data, IoError, SocketAddr, ClosedStreamReason, interrupt_received,
  client_asked, ClosedSessionReason, closed_stream, logged_out, FramingError, NetworkError,
  connection_dropped, server_network_down, InternalError, database,
  user_should_exist_but_was_not_found, clock_staggered, integrity_violation, serialize,
  HandlerError, network, domain, Session, SignError, crypto, thread_panic, Signer, accelerated,
  slow, Externals, StsServerState, Polled, token_cancelled, stream_ended, stream_failed, frame,
  Round, insert, remove,
}
use stss.Connection.Text.{token_amount_text, timestamp_text, hash_text}

-- Every send error ends the connection; only the reported error differs.
unfoldable pub send_error_logger : IoError → NetworkError
send_error_logger e = elim e.kind [
  | broken_pipe ↦ connection_dropped
  | connection_reset ↦ connection_dropped
  | connection_aborted ↦ connection_dropped
  | timed_out ↦ connection_dropped
  | network_down ↦ server_network_down
  | _ ↦ NetworkError.generic e
]

-- A failed read of the stream.
unfoldable pub receive_error : SocketAddr → ℕ → IoError → NetworkError
receive_error address max_frame_length e = elim e.kind [
  | connection_reset ↦ connection_dropped
  | broken_pipe ↦ connection_dropped
  | unexpected_eof ↦ connection_dropped
  | invalid_data ↦
      NetworkError.framing address (FramingError.size_smashing address max_frame_length)
  | _ ↦ NetworkError.framing address (FramingError.generic address e.text)
]

-- `AcceleratedSigner` and `SlowSigner`: a panic of the second's blocking task is a join error.
unfoldable pub generate_timestamp_signature :
    (c : Crypto)
    → Signer
    → Bool
    → c.RsaPrivateKey
    → Sha256Hash
    → Timestamp
    → Outcome (Result SignError RsaSignature)
generate_timestamp_signature c accelerated joined key h t = elim (sign_with_timestamp c key h t) [
  | Outcome.panicked ↦ Outcome.panicked
  | returned (ok s) ↦ returned (ok s)
  | returned (err e) ↦ returned (err (crypto e))
]
generate_timestamp_signature c slow false key h t = returned (err thread_panic)
generate_timestamp_signature c slow true key h t = elim (sign_with_timestamp c key h t) [
  | Outcome.panicked ↦ returned (err thread_panic)
  | returned (ok s) ↦ returned (ok s)
  | returned (err e) ↦ returned (err (crypto e))
]

-- What the handling of one request gives: a response, with a flag (a started session or a logout), an
-- error that ends the connection, or a panic that ends its task.
pub data Answer (A : Type 0) : Type 0 where
  answer : Response → A → Answer A
  failed : HandlerError → Answer A
  panicked : Answer A

abbrev pub fail_for : {A : Type 0} → String → InternalError → Answer A
fail_for username e = failed (domain (some username) e)

module _ (x : Externals) where
  open x use {codec, hasher, hex_encode, max_frame_length}

  unfoldable pub fetch_next_request : SocketAddr → Polled → Result NetworkError (Option Request)
  unfolding receive_error
  fetch_next_request address token_cancelled = ok none
  fetch_next_request address stream_ended = ok none
  fetch_next_request address (stream_failed e) = err (receive_error address max_frame_length e)
  fetch_next_request address (frame bytes) = elim (codec.deserialize_request bytes) [
    | ok request ↦ ok (some request)
    | err e ↦ err (NetworkError.deserialize e)
  ]

  -- The answer of `conn_handler_core` to a login whose password was accepted.
  unfoldable pub start_session :
      SocketAddr → String → StsServerState → Answer (Option Session) × StsServerState
  start_session address username st =
      let (is_new, users) = insert username st.logged_users in
      let st' = record st { logged_users = users } in
      if is_new
      then (answer Response.ok (some (record { address = address; username = username })), st')
      else (answer (Response.login_failed LoginError.already_logged_in) none, st')

  abbrev pub login_error : AuthenticationError → Answer (Option Session)
  login_error (user_not_found _) =
      answer (Response.login_failed LoginError.invalid_credentials) none
  login_error invalid_password = answer (Response.login_failed LoginError.invalid_credentials) none
  login_error (AuthenticationError.internal_data_base e) = failed (domain none (database e))

  unfoldable pub handle_login :
      SocketAddr → String → String → StsServerState → Answer (Option Session) × StsServerState
  unfolding start_session
  handle_login address username password st = elim (credentials_length_error username password) [
    | some _ ↦ (answer (Response.login_failed LoginError.invalid_credentials) none, st)
    | none ↦
        let (r, db) = verify_user_password hasher username password st.database in
        let st' = record st { database = db } in
        elim r [ ok _ ↦ start_session address username st' | err e ↦ (login_error e, st') ]
  ]

  abbrev pub registration_answer : Result RegistrationError (Unit {0}) → Answer (Option Session)
  registration_answer (ok _) = answer Response.ok none
  registration_answer (err (RegistrationError.internal_data_base e)) =
      failed (domain none (database e))
  registration_answer (err (user_already_exists _)) =
      answer (Response.sign_in_failed SignInError.username_already_taken) none

  unfoldable pub handle_sign_up :
      SocketAddr
      → String
      → String
      → String
      → StsServerState
      → Answer (Option Session) × StsServerState
  handle_sign_up address salt username password st =
      elim (credentials_length_error username password) [
        | some reason ↦ (answer (Response.operation_error reason) none, st)
        | none ↦
            let (r, db) = try_register_user hasher username password address.ip salt st.database in
            (registration_answer r, record st { database = db })
      ]

  -- The `match request` of `conn_handler_core`.
  unfoldable pub guest_request :
      SocketAddr → Round → Request → StsServerState → Answer (Option Session) × StsServerState
  unfolding handle_login handle_sign_up
  guest_request address round (Request.login username password) st =
      handle_login address username password st
  guest_request address round (Request.sign_up username password) st =
      handle_sign_up address round.salt username password st
  guest_request address round _ st = (answer Response.not_logged_in none, st)
