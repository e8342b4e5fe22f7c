-- ===== src/Protocol/Signing.antt =====
-- `sign_with_timestamp` and `verify_timestamp_signature` of shared_library/src/server_protocol.rs.
-- The crates `sha2` and `rsa` are not part of the repository: SHA-256, the PKCS#1 v1.5 signature
-- and its verification are parameters.
use stss.Prelude.{ℕ, ◌≡◌, List, ◌++◌, String, Result, ok, err, length, ◌==◌, if◌then◌else◌}
use stss.Protocol.{Sha256Hash, RsaSignature, Timestamp, rsa_key_size_in_bytes}
use stss.Protocol.Timestamps.{as_be_bytes}

-- An error of the crate `rsa` is its text.
pub record Crypto : Type 1 where
  pub RsaPrivateKey : Type 0
  pub RsaPublicKey : Type 0
  pub sha256 : List ℕ → List ℕ
  pub sign : RsaPrivateKey → List ℕ → Result String (List ℕ)
  pub verify : RsaPublicKey → List ℕ → List ℕ → Result String (Unit {0})

-- What a call has done that may also panic.
pub data Outcome (A : Type 0) : Type 0 where
  returned : A → Outcome A
  panicked : Outcome A

-- `TryFrom<&[u8]> for RsaSignature`; the error is the length that was found.
unfoldable pub signature_try_from : List ℕ → Result ℕ RsaSignature
signature_try_from value =
    if length value == rsa_key_size_in_bytes
    then ok (record { bytes = value })
    else err (length value)

-- `.expect(…)` on the conversion of the crate's vector into an array.
unfoldable pub expect_signature : Result ℕ RsaSignature → Outcome (Result String RsaSignature)
expect_signature (ok s) = returned (ok s)
expect_signature (err n) = panicked

unfoldable pub finish_signature : Result String (List ℕ) → Outcome (Result String RsaSignature)
unfolding expect_signature
finish_signature (ok raw) = expect_signature (signature_try_from raw)
finish_signature (err e) = returned (err e)

module _ (c : Crypto) where
  open c use {RsaPrivateKey, RsaPublicKey, sha256, sign, verify}

  -- The hasher is fed with the hash and then with the timestamp's 16 big-endian bytes.
  unfoldable pub combined_hash : Sha256Hash → Timestamp → List ℕ
  combined_hash h t = sha256 (h.bytes ++ as_be_bytes t)

  unfoldable pub sign_with_timestamp :
      RsaPrivateKey → Sha256Hash → Timestamp → Outcome (Result String RsaSignature)
  unfolding finish_signature combined_hash
  sign_with_timestamp key hash_to_sign timestamp =
      finish_signature (sign key (combined_hash hash_to_sign timestamp))

  unfoldable pub verify_timestamp_signature :
      RsaPublicKey → Sha256Hash → Timestamp → RsaSignature → Result String (Unit {0})
  unfolding combined_hash
  verify_timestamp_signature key hash_to_verify timestamp signature =
      verify key (combined_hash hash_to_verify timestamp) signature.bytes

  -- What the crates document of a 2048-bit key pair.
  pub record IsKeyPair (sk : RsaPrivateKey) (pk : RsaPublicKey) : Type 0 where
    pub sign_length : (m s : List ℕ) → sign sk m ≡ ok s → length s ≡ rsa_key_size_in_bytes
    pub verify_sign : (m s : List ℕ) → sign sk m ≡ ok s → verify pk m s ≡ ok tt
    pub verify_unique : (m n s : List ℕ) → sign sk m ≡ ok s → verify pk n s ≡ ok tt → n ≡ m
