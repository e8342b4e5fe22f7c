-- ===== src/Cli/Print.antt =====
-- What client_cli/src/main.rs prints of a reply, and what it writes: the arms of its `match`es, with the
-- signature that it verifies.
use stss.Prelude.{ℕ, true, Option, none, some, List, [], ◌∷◌, String, Result, ok, err, take}
use stss.Protocol.{Sha256Hash, RsaSignature, Response}
use stss.Protocol.Signing.{Crypto, signature_try_from, verify_timestamp_signature}
use stss.Client.{ClientError}
use stss.Cli.{
  Action, login, signup, logout, check_tokens, buy_tokens, verify_a_hash, hash_a_file, history,
  exit, Message, operation_cancelled, login_successful, signup_complete, logout_successful,
  not_currently_logged_in, must_log_in, login_error, signup_error, server_error,
  unexpected_response, network_error, network_client_error, you_own, purchase_complete,
  amount_too_high, no_tokens, invalid_hash, invalid_signature_length, signature_valid,
  signature_invalid, cannot_read, cannot_create, cannot_write, cannot_hash, signed, signature_saved,
  verification_passed, verification_failed, records, closed_successfully, error_while_closing,
  validate_credentials_length,
}

abbrev pub login_reply : Result ClientError Response → Message
login_reply (ok Response.ok) = login_successful
login_reply (ok (Response.login_failed e)) = login_error e
login_reply (ok (Response.operation_error text)) = server_error text
login_reply (ok unexpected) = unexpected_response unexpected
login_reply (err e) = network_client_error e

abbrev pub signup_reply : Result ClientError Response → Message
signup_reply (ok Response.ok) = signup_complete
signup_reply (ok (Response.sign_in_failed e)) = signup_error e
signup_reply (ok (Response.operation_error text)) = server_error text
signup_reply (ok unexpected) = unexpected_response unexpected
signup_reply (err e) = network_error e

abbrev pub logout_reply : Result ClientError Response → Message
logout_reply (ok Response.ok) = logout_successful
logout_reply (ok Response.not_logged_in) = not_currently_logged_in
logout_reply (ok (Response.operation_error text)) = server_error text
logout_reply (ok unexpected) = unexpected_response unexpected
logout_reply (err e) = network_client_error e

abbrev pub count_reply : Result ClientError Response → Message
count_reply (ok (Response.token_count count)) = you_own count
count_reply (ok Response.not_logged_in) = must_log_in
count_reply (ok (Response.operation_error text)) = server_error text
count_reply (ok unexpected) = unexpected_response unexpected
count_reply (err e) = network_client_error e

abbrev pub purchase_reply : Result ClientError Response → Message
purchase_reply (ok (Response.token_count total)) = purchase_complete total
purchase_reply (ok Response.token_amount_too_high) = amount_too_high
purchase_reply (ok Response.not_logged_in) = must_log_in
purchase_reply (ok (Response.operation_error text)) = server_error text
purchase_reply (ok unexpected) = unexpected_response unexpected
purchase_reply (err e) = network_client_error e

abbrev pub history_reply : Result ClientError Response → Message
history_reply (ok (Response.history rows)) = records rows
history_reply (ok unexpected) = unexpected_response unexpected
history_reply (err e) = network_error e

unfoldable pub credentials_message : Option (String × String) → List Message
unfolding validate_credentials_length
credentials_message none = operation_cancelled ∷ []
credentials_message (some (u, p)) = elim (validate_credentials_length u p) [
  | none ↦ []
  | some m ↦ m ∷ []
]

-- What is printed when the menu has been left and the connection is closed.
abbrev pub closing_message : Result String (Unit {0}) → Message
closing_message (ok _) = closed_successfully
closing_message (err text) = error_while_closing text

-- The one `write` of the signature. `Write::write` says how many bytes it has taken.
abbrev pub write_message : Result String ℕ → Message
write_message (ok n) = signature_saved
write_message (err text) = cannot_write text

-- `Sha256Hash::from_str` is `hex::decode_to_slice` into 32 bytes.
module _ (crypto : Crypto) (decode_to_slice : String → Result String (List ℕ)) where
  abbrev pub local_verification : Result String (Unit {0}) → Message
  local_verification (ok _) = verification_passed
  local_verification (err text) = verification_failed text

  module _ (key : crypto.RsaPublicKey) where
    -- The reply to the hash of a file.
    unfoldable pub token_reply :
        Sha256Hash → Result String ℕ → Result ClientError Response → List Message
    unfolding verify_timestamp_signature
    token_reply hash_result written (ok (Response.token hash sign timestamp)) =
        signed hash timestamp
        ∷ write_message written
        ∷ local_verification (verify_timestamp_signature crypto key hash_result timestamp sign)
        ∷ []
    token_reply hash_result written (ok Response.not_enough_tokens) = no_tokens ∷ []
    token_reply hash_result written (ok Response.not_logged_in) = must_log_in ∷ []
    token_reply hash_result written (ok (Response.operation_error text)) = server_error text ∷ []
    token_reply hash_result written (ok unexpected) = unexpected_response unexpected ∷ []
    token_reply hash_result written (err e) = network_error e ∷ []

    abbrev pub verdict : Result String (Unit {0}) → Message
    verdict (ok _) = signature_valid
    verdict (err _) = signature_invalid

    abbrev pub signature_verdict : Sha256Hash → ℕ → Result ℕ RsaSignature → Message
    signature_verdict hash nanos (err _) = invalid_signature_length
    signature_verdict hash nanos (ok sign) =
        verdict (verify_timestamp_signature crypto key hash (record { nanos = nanos }) sign)

    abbrev pub file_verdict : Sha256Hash → ℕ → Result String (List ℕ) → Message
    file_verdict hash nanos (err text) = cannot_read text
    file_verdict hash nanos (ok raw_sign) =
        signature_verdict hash nanos (signature_try_from raw_sign)

    -- "Verify a Hash": it needs no reply of the server.
    unfoldable pub verify_message : String → ℕ → Result String (List ℕ) → Message
    unfolding verify_timestamp_signature signature_try_from
    verify_message h_raw ts_raw file = elim (decode_to_slice h_raw) [
      | err _ ↦ invalid_hash
      | ok bytes ↦ file_verdict (record { bytes = bytes }) ts_raw file
    ]

    -- What an action prints, with the reply if it has sent a request.
    unfoldable pub messages : Action → Result ClientError Response → List Message
    unfolding token_reply verify_message credentials_message
    messages (login (some (u, p))) reply = elim (credentials_message (some (u, p))) [
      | [] ↦ login_reply reply ∷ []
      | m ∷ ms ↦ m ∷ ms
    ]
    messages (signup (some (u, p))) reply = elim (credentials_message (some (u, p))) [
      | [] ↦ signup_reply reply ∷ []
      | m ∷ ms ↦ m ∷ ms
    ]
    messages logout reply = logout_reply reply ∷ []
    messages check_tokens reply = count_reply reply ∷ []
    messages (buy_tokens (some amount)) reply = purchase_reply reply ∷ []
    messages (verify_a_hash (some (h_raw, ts_raw)) file) reply =
        verify_message h_raw ts_raw file ∷ []
    messages (hash_a_file true (err text) _ _) reply = cannot_create text ∷ []
    messages (hash_a_file true (ok _) (err e) _) reply = cannot_hash e ∷ []
    messages (hash_a_file true (ok _) (ok hash) written) reply = token_reply hash written reply
    messages history reply = history_reply reply ∷ []
    messages exit reply = []
    messages _ reply = operation_cancelled ∷ []

-- What the output file holds afterwards: nothing if it was not created; of a token, the bytes that were
-- written; and no bytes after any other outcome.
unfoldable pub output_file : Action → Result ClientError Response → Option (List ℕ)
output_file (hash_a_file true (ok _) (ok hash) (ok n)) (ok (Response.token _ sign _)) =
    some (take n sign.bytes)
output_file (hash_a_file true (ok _) _ _) reply = some []
output_file action reply = none
