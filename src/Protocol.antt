-- ===== src/Protocol.antt =====
-- shared_library/src/server_protocol.rs: the values that the server and its clients exchange.
-- A fixed-size byte array is a list of bytes with its length stated by a predicate; `u64` and
-- `u128` are natural numbers. The children hold the timestamps, the credential limits and the
-- signatures.
pub mod Timestamps
pub mod Limits
pub mod Signing
pub mod Binding
pub mod Codec
use stss.Prelude.{ℕ, ◌≡◌, ◌^◌, ◌<◌, List, String, length, All}
use stss.Bytes.{IsByte}

-- `Sha256Hash([u8; 32])`
pub record Sha256Hash : Type 0 where
  pub bytes : List ℕ

abbrev pub IsSha256Hash : Sha256Hash → Type 0
IsSha256Hash h = (length h.bytes ≡ 32) × All IsByte h.bytes

abbrev pub rsa_key_size_in_bits : ℕ
rsa_key_size_in_bits = 2048

abbrev pub rsa_key_size_in_bytes : ℕ
rsa_key_size_in_bytes = 256

-- `RsaSignature([u8; RSA_KEY_SIZE_IN_BYTES])`
pub record RsaSignature : Type 0 where
  pub bytes : List ℕ

abbrev pub IsRsaSignature : RsaSignature → Type 0
IsRsaSignature s = length s.bytes ≡ rsa_key_size_in_bytes

-- `Timestamp(u128)`, in nanoseconds since the Unix epoch.
pub record Timestamp : Type 0 where
  pub nanos : ℕ

abbrev pub IsTimestamp : Timestamp → Type 0
IsTimestamp t = t.nanos < 256 ^ 16

pub record HistoryRecord : Type 0 where
  pub sign : RsaSignature
  pub timestamp : Timestamp

pub data LoginError : Type 0 where
  invalid_credentials already_logged_in : LoginError

pub data SignInError : Type 0 where
  username_already_taken already_logged_in : SignInError

pub data Request : Type 0 where
  login : String → String → Request
  sign_up : String → String → Request
  log_out : Request
  sign_hash : Sha256Hash → Request
  purchase_tokens : ℕ → Request
  how_many_tokens_do_i_have : Request
  history : Request

pub data Response : Type 0 where
  ok : Response
  login_failed : LoginError → Response
  sign_in_failed : SignInError → Response
  not_logged_in : Response
  token_count : ℕ → Response
  token_amount_too_high : Response
  not_enough_tokens : Response
  token : Sha256Hash → RsaSignature → Timestamp → Response
  operation_error : String → Response
  history : List HistoryRecord → Response
