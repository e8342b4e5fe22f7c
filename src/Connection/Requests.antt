-- ===== src/Connection/Requests.antt =====
-- server/src/connection_handler.rs: the `match request` of `session_handler`, one function for each
-- request that calls the database.
use stss.Prelude.{ℕ, Bool, true, false, Option, none, some, List, String, Result, ok, err}
use stss.Protocol.{
  Sha256Hash, RsaSignature, Timestamp, HistoryRecord, Request, Response, LoginError, SignInError,
}
use stss.Protocol.Timestamps.{new}
use stss.Protocol.Signing.{Outcome, returned}
use stss.TimeOracle.{time_now, since_epoch}
use stss.Database.{
  get_user_tokens, add_user_tokens, subtract_user_tokens, add_user_record, get_user_history,
}
use stss.Database.Schema.{
  GetTokensError, token_integrity_check_violated, AddTokensError, token_overflow,
  SubtractTokensError, insufficient_tokens, UserHistoryError, timestamp_integrity_violated,
  hash_integrity_violated, AddRecordError,
}
use stss.Connection.Types.{
  database, user_should_exist_but_was_not_found, clock_staggered, integrity_violation, SignError,
  Signer, Externals, StsServerState, Round,
}
use stss.Connection.Text.{token_amount_text, timestamp_text, hash_text}
use stss.Connection.{Answer, answer, panicked, fail_for, generate_timestamp_signature}

abbrev pub no_logout : Response → Answer Bool
no_logout response = answer response false

abbrev pub subtract_error : String → SubtractTokensError → Answer Bool
subtract_error username insufficient_tokens = no_logout Response.not_enough_tokens
subtract_error username SubtractTokensError.user_does_not_exist =
    fail_for username user_should_exist_but_was_not_found
subtract_error username (SubtractTokensError.internal_data_base e) = fail_for username (database e)

abbrev pub record_answer :
    String → Sha256Hash → RsaSignature → Timestamp → Result AddRecordError (Unit {0}) → Answer Bool
record_answer username h sign timestamp (ok _) = no_logout (Response.token h sign timestamp)
record_answer username h sign timestamp (err AddRecordError.user_does_not_exist) =
    fail_for username user_should_exist_but_was_not_found
record_answer username h sign timestamp (err (AddRecordError.internal_data_base e)) =
    fail_for username (database e)

abbrev pub purchase_answer : String → Result AddTokensError ℕ → Answer Bool
purchase_answer username (ok count) = no_logout (Response.token_count count)
purchase_answer username (err token_overflow) = no_logout Response.token_amount_too_high
purchase_answer username (err AddTokensError.user_does_not_exist) =
    fail_for username user_should_exist_but_was_not_found
purchase_answer username (err (AddTokensError.internal_data_base e)) =
    fail_for username (database e)

abbrev pub count_answer : String → Result GetTokensError ℕ → Answer Bool
count_answer username (ok count) = no_logout (Response.token_count count)
count_answer username (err GetTokensError.user_does_not_exist) =
    fail_for username user_should_exist_but_was_not_found
count_answer username (err (token_integrity_check_violated user amount)) =
    fail_for username (integrity_violation (token_amount_text user amount))
count_answer username (err (GetTokensError.internal_data_base e)) = fail_for username (database e)

abbrev pub history_answer : String → Result UserHistoryError (List HistoryRecord) → Answer Bool
history_answer username (ok history) = no_logout (Response.history history)
history_answer username (err UserHistoryError.user_does_not_exist) =
    fail_for username user_should_exist_but_was_not_found
history_answer username (err (timestamp_integrity_violated token)) =
    fail_for username (integrity_violation (timestamp_text token))
history_answer username (err (hash_integrity_violated h)) =
    fail_for username (integrity_violation (hash_text h))
history_answer username (err (UserHistoryError.internal_data_base e)) =
    fail_for username (database e)

unfoldable pub handle_purchase : String → ℕ → StsServerState → Answer Bool × StsServerState
handle_purchase username tokens st =
    let (r, db) = add_user_tokens username tokens st.database in
    (purchase_answer username r, record st { database = db })

unfoldable pub handle_count : String → StsServerState → Answer Bool × StsServerState
handle_count username st =
    let (r, db) = get_user_tokens username st.database in
    (count_answer username r, record st { database = db })

-- The answer to a failed signature: the token is given back, and a failure of that is only logged.
unfoldable pub refund : String → StsServerState → Answer Bool × StsServerState
refund username st =
    let (r, db) = add_user_tokens username 1 st.database in
    (
      no_logout (Response.operation_error "Error while performing the operation."),
      record st { database = db },
    )

unfoldable pub store_record :
    String → Sha256Hash → Timestamp → RsaSignature → StsServerState → Answer Bool × StsServerState
store_record username h timestamp sign st =
    let (r, db) = add_user_record username timestamp sign st.database in
    (record_answer username h sign timestamp r, record st { database = db })

-- What follows the call of the signer.
unfoldable pub deliver :
    String
    → Sha256Hash
    → Timestamp
    → Outcome (Result SignError RsaSignature)
    → StsServerState
    → Answer Bool × StsServerState
unfolding refund store_record
deliver username h timestamp Outcome.panicked st = (panicked, st)
deliver username h timestamp (returned (err _)) st = refund username st
deliver username h timestamp (returned (ok sign)) st = store_record username h timestamp sign st

module _ (x : Externals) where
  open x use {crypto, hex_encode}

  unfoldable pub handle_history : String → StsServerState → Answer Bool × StsServerState
  handle_history username st =
      let (r, db) = get_user_history hex_encode username st.database in
      (history_answer username r, record st { database = db })

  module _ (signing_key : x.crypto.RsaPrivateKey) (signer : Signer) where
    -- Once the token is paid and the clock is read: the hash is signed and the record stored.
    unfoldable pub sign_at :
        String → Round → Sha256Hash → Option ℕ → StsServerState → Answer Bool × StsServerState
    unfolding deliver
    sign_at username round h none st = (fail_for username clock_staggered, st)
    sign_at username round h (some nanos) st =
        deliver username h (new nanos)
          (generate_timestamp_signature crypto signer round.joined signing_key h (new nanos)) st

    unfoldable pub after_subtraction :
        String
        → Round
        → Sha256Hash
        → Result SubtractTokensError ℕ
        → StsServerState
        → Answer Bool × StsServerState
    unfolding sign_at
    after_subtraction username round h (err e) st = (subtract_error username e, st)
    after_subtraction username round h (ok _) st =
        sign_at username round h (since_epoch (time_now round.local_now st.offset_nanos)) st

    unfoldable pub handle_sign_hash :
        String → Round → Sha256Hash → StsServerState → Answer Bool × StsServerState
    unfolding after_subtraction
    handle_sign_hash username round h st =
        let (r, db) = subtract_user_tokens username 1 st.database in
        after_subtraction username round h r (record st { database = db })

    -- The flag is `has_to_logout`.
    unfoldable pub session_request :
        String → Round → Request → StsServerState → Answer Bool × StsServerState
    unfolding handle_sign_hash handle_purchase handle_count handle_history
    session_request username round (Request.login _ _) st =
        (no_logout (Response.login_failed LoginError.already_logged_in), st)
    session_request username round (Request.sign_up _ _) st =
        (no_logout (Response.sign_in_failed SignInError.already_logged_in), st)
    session_request username round Request.log_out st = (answer Response.ok true, st)
    session_request username round (Request.sign_hash h) st = handle_sign_hash username round h st
    session_request username round (Request.purchase_tokens tokens) st =
        handle_purchase username tokens st
    session_request username round Request.how_many_tokens_do_i_have st = handle_count username st
    session_request username round Request.history st = handle_history username st
