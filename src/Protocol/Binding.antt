-- ===== src/Protocol/Binding.antt =====
-- What a timestamp signature proves, over `sign_with_timestamp` and `verify_timestamp_signature`
-- of shared_library/src/server_protocol.rs.
use native.Mathlib.Decide.{ℕ_discrete}
use stss.Prelude.{
  ℕ, ◌≡◌, ◌≢◌, ◌⊎◌, inl, inr, refl, sym, ◌∙◌, ap, List, [], ◌∷◌, ◌++◌, String, Result, ok, err,
  length, arith, ==_iff, Bool-cases, ◌==◌,
}
use stss.Protocol.{Sha256Hash, IsSha256Hash, RsaSignature, IsRsaSignature, Timestamp, IsTimestamp}
use stss.Protocol.Timestamps.{as_be_bytes, from_be, from_be-as_be_bytes}
use stss.Protocol.Signing.{
  Crypto, returned, panicked, signature_try_from, expect_signature, finish_signature, combined_hash,
  sign_with_timestamp, verify_timestamp_signature, IsKeyPair,
}

-- A byte string is accepted as a signature, unchanged, exactly when it has 256 bytes.
pub signature_try_from_lem :
    (bs : List ℕ)
    → ((length bs ≡ 256) × (signature_try_from bs ≡ ok (record { bytes = bs })))
      ⊎ ((length bs ≢ 256) × (signature_try_from bs ≡ err (length bs)))
unfolding signature_try_from
signature_try_from_lem bs = elim (Bool-cases (length bs == 256)) [
  | inl e ↦ inl ((==_iff (length bs) 256).0 e, rw e)
  | inr e ↦ inr (λ p. cc ((==_iff (length bs) 256).1 p), rw e)
]

append_injective :
    (xs ys us vs : List ℕ) → length xs ≡ length ys → xs ++ us ≡ ys ++ vs → (xs ≡ ys) × (us ≡ vs)
append_injective [] [] us vs e p = (cc, p)
append_injective [] (y ∷ ys) us vs e p = absurd (omega arith)
append_injective (x ∷ xs) [] us vs e p = absurd (omega arith)
append_injective (x ∷ xs) (y ∷ ys) us vs e p =
    let (hx, ht) = append_injective xs ys us vs (omega arith) (cc) in
    let head : x ≡ y = cc in (cc, ht)

List-discrete : Discrete (List ℕ)
List-discrete = hlevel ℕ_discrete

-- The text that is hashed determines the hash and the timestamp.
message_injective :
    (h k : Sha256Hash) (s t : Timestamp)
    → IsSha256Hash h
    → IsSha256Hash k
    → IsTimestamp s
    → IsTimestamp t
    → h.bytes ++ as_be_bytes s ≡ k.bytes ++ as_be_bytes t
    → (h ≡ k) × (s ≡ t)
message_injective h k s t hh hk hs ht e =
    let (same, low) =
      append_injective h.bytes k.bytes (as_be_bytes s) (as_be_bytes t) (hh.0 ∙ sym hk.0) e in
    (
      λ i. record { bytes = same i },
      sym (from_be-as_be_bytes s hs) ∙ ap from_be low ∙ from_be-as_be_bytes t ht,
    )

module _ (c : Crypto) where
  open c use {RsaPrivateKey, RsaPublicKey, sha256, sign, verify}

  finish-cases :
      (sk : RsaPrivateKey) (pk : RsaPublicKey)
      → IsKeyPair c sk pk
      → (m : List ℕ) (r : Result String (List ℕ)) → sign sk m ≡ r
      → ((raw : List ℕ) × (r ≡ ok raw)
          × (finish_signature r ≡ returned (ok (record { bytes = raw }))))
        ⊎ ((e : String) × (finish_signature r ≡ returned (err e)))
  unfolding finish_signature
  finish-cases sk pk pair m (err e) h = inr (e, refl)
  finish-cases sk pk pair m (ok raw) h = elim (signature_try_from_lem raw) [
    | inl (len, e) ↦ inl (raw, refl, ap expect_signature e)
    | inr (len, e) ↦ absurd (len (pair.sign_length m raw h))
  ]

  -- With a 2048-bit key pair, signing never panics.
  pub sign_with_timestamp_no_panic :
      (sk : RsaPrivateKey) (pk : RsaPublicKey) (h : Sha256Hash) (t : Timestamp)
      → IsKeyPair c sk pk
      → sign_with_timestamp c sk h t ≢ panicked
  unfolding sign_with_timestamp
  sign_with_timestamp_no_panic sk pk h t pair p =
      elim (finish-cases sk pk pair (combined_hash c h t) _ refl) [
        | inl (raw, _, e) ↦ cc
        | inr (x, e) ↦ cc
      ]

  signed_raw :
      (sk : RsaPrivateKey) (pk : RsaPublicKey) (h : Sha256Hash) (t : Timestamp) (s : RsaSignature)
      → IsKeyPair c sk pk
      → sign_with_timestamp c sk h t ≡ returned (ok s)
      → sign sk (combined_hash c h t) ≡ ok s.bytes
  unfolding sign_with_timestamp
  signed_raw sk pk h t s pair p = elim (finish-cases sk pk pair (combined_hash c h t) _ refl) [
    | inl (raw, q, e) ↦
        let same : s ≡ record { bytes = raw } = cc in
        q ∙ ap (λ (x : RsaSignature). ok x.bytes) (sym same)
    | inr (x, e) ↦ cc
  ]

  -- What the server has signed with a 2048-bit key pair has 256 bytes and verifies, under the
  -- matching public key, for the same hash and timestamp.
  pub sign-verify :
      (sk : RsaPrivateKey) (pk : RsaPublicKey) (h : Sha256Hash) (t : Timestamp) (s : RsaSignature)
      → IsKeyPair c sk pk
      → sign_with_timestamp c sk h t ≡ returned (ok s)
      → IsRsaSignature s × (verify_timestamp_signature c pk h t s ≡ ok tt)
  sign-verify sk pk h t s pair p =
      let raw = signed_raw sk pk h t s pair p in
      (pair.sign_length _ _ raw, unfold verify_timestamp_signature in pair.verify_sign _ _ raw)

  -- With a 2048-bit key pair, 32-byte hashes and 128-bit timestamps: a signature that was made for
  -- one hash and timestamp and verifies for another hash or timestamp shows a SHA-256 collision
  -- between the two signed texts.
  pub signature_binds :
      (sk : RsaPrivateKey) (pk : RsaPublicKey) (h k : Sha256Hash) (s t : Timestamp)
      (sig : RsaSignature)
      → IsKeyPair c sk pk
      → IsSha256Hash h
      → IsSha256Hash k
      → IsTimestamp s
      → IsTimestamp t
      → sign_with_timestamp c sk h s ≡ returned (ok sig)
      → verify_timestamp_signature c pk k t sig ≡ ok tt
      → ((h ≡ k) × (s ≡ t))
        ⊎ ((h.bytes ++ as_be_bytes s ≢ k.bytes ++ as_be_bytes t)
            × (sha256 (h.bytes ++ as_be_bytes s) ≡ sha256 (k.bytes ++ as_be_bytes t)))
  unfolding verify_timestamp_signature
  signature_binds sk pk h k s t sig pair hh hk hs ht signed verified =
      elim (List-discrete (h.bytes ++ as_be_bytes s) (k.bytes ++ as_be_bytes t)) [
        | yes e ↦ inl (message_injective h k s t hh hk hs ht e)
        | no e ↦
            inr (e, sym (pair.verify_unique _ _ _ (signed_raw sk pk h s sig pair signed) verified))
      ]
