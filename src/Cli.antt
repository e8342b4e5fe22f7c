-- ===== src/Cli.antt =====
-- client_cli/src/main.rs: the menu of the command-line client. What the user answers to the prompts and what
-- the files answer is the environment's; hexadecimal text and calendar dates are the crates'. What is printed is
-- a list of messages, by what they say.
pub mod Print
pub mod Times
pub mod Link
pub mod Replies
pub mod Exchanges
pub mod Steps
pub mod Agreement
pub mod Proof
use stss.Prelude.{
  ℕ, ◌<◌, Bool, true, false, Option, none, some, List, [], ◌∷◌, String, Result, ok, err, map_err,
  if◌then◌else◌, take,
}
use stss.Protocol.{
  Sha256Hash, RsaSignature, Timestamp, HistoryRecord, LoginError, SignInError, Request, Response,
}
use stss.Protocol.Limits.{is_username_length_valid, is_password_length_valid}
use stss.Protocol.Signing.{Crypto, signature_try_from, verify_timestamp_signature}
use stss.Protocol.Codec.{Codec}
use stss.SafeRead.{SafeReadError}
use stss.Client.{ClientError, Wire, send_request}

pub data Choice : Type 0 where
  login signup logout check_tokens buy_tokens verify_a_hash hash_a_file history exit : Choice

-- The menu. `insert(0, …)` puts an option before the others.
unfoldable pub options : Bool → List Choice
options true =
    Choice.check_tokens ∷ Choice.buy_tokens ∷ Choice.hash_a_file ∷ Choice.history ∷ Choice.logout
    ∷ Choice.verify_a_hash ∷ Choice.exit ∷ []
options false = Choice.login ∷ Choice.signup ∷ Choice.verify_a_hash ∷ Choice.exit ∷ []

-- A round of the menu: the choice, with what the prompts gave (nothing, if one was cancelled) and what the
-- files gave. Hashing a file has the creation of the output file, the hash of the file, and how many bytes
-- the one `write` of the signature takes.
pub data Action : Type 0 where
  login : Option (String × String) → Action
  signup : Option (String × String) → Action
  logout check_tokens : Action
  buy_tokens : Option ℕ → Action
  verify_a_hash : Option (String × ℕ) → Result String (List ℕ) → Action
  hash_a_file :
      Bool → Result String (Unit {0}) → Result SafeReadError Sha256Hash → Result String ℕ → Action
  history exit : Action

abbrev pub choice_of : Action → Choice
choice_of (login _) = Choice.login
choice_of (signup _) = Choice.signup
choice_of logout = Choice.logout
choice_of check_tokens = Choice.check_tokens
choice_of (buy_tokens _) = Choice.buy_tokens
choice_of (verify_a_hash _ _) = Choice.verify_a_hash
choice_of (hash_a_file _ _ _ _) = Choice.hash_a_file
choice_of history = Choice.history
choice_of exit = Choice.exit

pub data Message : Type 0 where
  operation_cancelled username_too_long password_too_long : Message
  login_successful signup_complete logout_successful not_currently_logged_in must_log_in : Message
  login_error : LoginError → Message
  signup_error : SignInError → Message
  server_error : String → Message
  unexpected_response : Response → Message
  network_error network_client_error : ClientError → Message
  you_own purchase_complete : ℕ → Message
  amount_too_high no_tokens : Message
  invalid_hash invalid_signature_length signature_valid signature_invalid : Message
  cannot_read cannot_create cannot_write : String → Message
  cannot_hash : SafeReadError → Message
  signed : Sha256Hash → Timestamp → Message
  signature_saved verification_passed : Message
  verification_failed : String → Message
  records : List HistoryRecord → Message
  closed_successfully : Message
  error_while_closing : String → Message

-- `validate_credentials_length`, with what it prints.
unfoldable pub validate_credentials_length : String → String → Option Message
validate_credentials_length username password =
    if is_username_length_valid username
    then (if is_password_length_valid password then none else some password_too_long)
    else some username_too_long

abbrev pub if_valid : String → String → Request → Option Request
if_valid username password request = elim (validate_credentials_length username password) [
  | none ↦ some request
  | some _ ↦ none
]

-- The request that an action sends, if it gets that far.
unfoldable pub request_of : Action → Option Request
unfolding validate_credentials_length
request_of (login (some (u, p))) = if_valid u p (Request.login u p)
request_of (signup (some (u, p))) = if_valid u p (Request.sign_up u p)
request_of logout = some Request.log_out
request_of check_tokens = some Request.how_many_tokens_do_i_have
request_of (buy_tokens (some amount)) = some (Request.purchase_tokens amount)
request_of (hash_a_file true (ok _) (ok hash) _) = some (Request.sign_hash hash)
request_of history = some Request.history
request_of _ = none

-- `is_logged_in` after the reply.
unfoldable pub logged_in_after : Action → Bool → Result ClientError Response → Bool
logged_in_after (login _) is_logged_in (ok Response.ok) = true
logged_in_after logout is_logged_in (ok Response.ok) = false
logged_in_after action is_logged_in reply = is_logged_in

abbrev pub is_choice : Choice → Choice → Bool
is_choice Choice.login Choice.login = true
is_choice Choice.signup Choice.signup = true
is_choice Choice.logout Choice.logout = true
is_choice Choice.check_tokens Choice.check_tokens = true
is_choice Choice.buy_tokens Choice.buy_tokens = true
is_choice Choice.verify_a_hash Choice.verify_a_hash = true
is_choice Choice.hash_a_file Choice.hash_a_file = true
is_choice Choice.history Choice.history = true
is_choice Choice.exit Choice.exit = true
is_choice _ _ = false

-- Whether the menu has the choice.
abbrev pub offers : List Choice → Choice → Bool
offers [] c = false
offers (o ∷ os) c = if is_choice o c then true else offers os c
