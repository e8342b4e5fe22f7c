-- ===== src/Cli/Proof.antt =====
-- "Hash a File" and "Verify a Hash" of client_cli/src/main.rs, with the signatures of
-- shared_library/src/server_protocol.rs.
use stss.Prelude.{
  ℕ, zero, suc, ==_iff, ◌≡◌, ◌≤◌, refl, ap, sym, ◌∙◌, arith, true, Option, some, List, [], ◌∷◌,
  String, Result, ok, take, length, length-take, ◌==◌, if◌then◌else◌, Bool-cases, inl, inr,
}
use stss.Protocol.{Sha256Hash, RsaSignature, Timestamp, Response}
use stss.Protocol.Signing.{
  Crypto, IsKeyPair, returned, sign_with_timestamp, verify_timestamp_signature, signature_try_from,
}
use stss.Protocol.Binding.{sign-verify}
use stss.Cli.{
  Action, Message, signed, signature_saved, verification_passed, signature_valid,
  invalid_signature_length,
}
use stss.Cli.Print.{messages, token_reply, verify_message, output_file}

take_all : (n : ℕ) (xs : List ℕ) → n ≡ length xs → take n xs ≡ xs
take_all zero [] e = refl
take_all zero (x ∷ xs) e = ground (arith, e)
take_all (suc n) [] e = ground (arith, e)
take_all (suc n) (x ∷ xs) e = ap (λ ys. x ∷ ys) (take_all n xs (omega (arith, e)))

module _ (c : Crypto) (encode : List ℕ → String) (decode : String → Result String (List ℕ)) where
  module _ (sk : c.RsaPrivateKey) (pk : c.RsaPublicKey) where
    -- What the client prints of a token, and what it says of the output file afterwards, if the one `write` has
    -- taken `n` bytes.
    abbrev pub SavedPost : Sha256Hash → Timestamp → ℕ → List Message → Option (List ℕ) → Type 0
    SavedPost h t n printed file =
        (printed ≡ signed h t ∷ signature_saved ∷ verification_passed ∷ [])
        × ((content : List ℕ) × (file ≡ some content)
            × (verify_message c decode pk (encode h.bytes) t.nanos (ok content)
                ≡ (if n == 256 then signature_valid else invalid_signature_length)))

    saved_verdict :
        (h : Sha256Hash) (t : Timestamp) (s : RsaSignature) (n : ℕ)
        → n ≤ 256
        → length s.bytes ≡ 256
        → verify_timestamp_signature c pk h t s ≡ ok tt
        → decode (encode h.bytes) ≡ ok h.bytes
        → verify_message c decode pk (encode h.bytes) t.nanos (ok (take n s.bytes))
          ≡ (if n == 256 then signature_valid else invalid_signature_length)
    unfolding verify_message signature_try_from
    saved_verdict h t s n small size valid read =
        let written : length (take n s.bytes) ≡ n =
          omega (arith, length-take n s.bytes, size, small) in
        elim (Bool-cases (n == 256)) [
          | inl p ↦
              let same = take_all n s.bytes ((==_iff n 256).0 p ∙ sym size) in
              ground (arith, same, read, valid, size, p)
          | inr p ↦ ground (arith, read, written, p)
        ]

    -- For a hash whose printed text is read back, and a token that the server has signed for it, with the key
    -- that the client has the public key of: the client prints the token, says that the signature is saved, and
    -- verifies it. "Verify a Hash" then accepts the file if the one `write` has taken all 256 bytes,
    -- and refuses its length if it has taken fewer.
    pub hash_a_file-verify_a_hash :
        (h : Sha256Hash) (t : Timestamp) (s : RsaSignature) (n : ℕ)
        → IsKeyPair c sk pk
        → decode (encode h.bytes) ≡ ok h.bytes
        → n ≤ 256
        → sign_with_timestamp c sk h t ≡ returned (ok s)
        → SavedPost h t n
            (messages c decode pk
              (Action.hash_a_file true (ok tt) (ok h) (ok n))
              (ok (Response.token h s t)))
            (output_file
              (Action.hash_a_file true (ok tt) (ok h) (ok n))
              (ok (Response.token h s t)))
    unfolding messages token_reply output_file
    hash_a_file-verify_a_hash h t s n pair read small made =
        let (size, valid) = sign-verify c sk pk h t s pair made in
        (rw valid refl, (take n s.bytes, refl, saved_verdict h t s n small size valid read))
