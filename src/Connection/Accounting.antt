-- ===== src/Connection/Accounting.antt =====
-- What a `SignHash` request of a session does to the user's account and history:
-- server/src/connection_handler.rs over server/src/database.rs.
use stss.Prelude.{
  ℕ, ◌-◌, ◌≤◌, ◌≡◌, ◌⊎◌, inl, inr, refl, true, false, Bool, Option, some, String, Result, ok, err,
  List, [], ◌∷◌, ◌++◌,
}
use stss.Protocol.{Sha256Hash, RsaSignature, Timestamp, Response}
use stss.Protocol.Signing.{
  Crypto, Outcome, returned, panicked, sign_with_timestamp, verify_timestamp_signature, IsKeyPair,
}
use stss.Protocol.Binding.{sign_with_timestamp_no_panic, sign-verify}
use stss.Database.Schema.{Tables, HistoryRow}
use stss.Database.Monad.{Sqlite, FailedWith}
use stss.Database.Tokens.{Holds}
use stss.Database.Records.{row_of}
use stss.Connection.Types.{SignError, Signer, accelerated, slow, StsServerState}
use stss.Connection.{Answer, answer, failed, generate_timestamp_signature}

Outcome-cases :
    {E A : Type 0} (o : Outcome (Result E A))
    → (o ≡ panicked) ⊎ (((e : E) × (o ≡ returned (err e))) ⊎ ((a : A) × (o ≡ returned (ok a))))
Outcome-cases panicked = inl refl
Outcome-cases (returned (err e)) = inr (inl (e, refl))
Outcome-cases (returned (ok a)) = inr (inr (a, refl))

-- The count that the account of `name` can have after a request that ended without a token: what it
-- was, or one less.
abbrev pub Kept : String → ℕ → List HistoryRow → Tables → Type 0
Kept name b history t = (t.history ≡ history) × (Holds name t b ⊎ ((1 ≤ b) × Holds name t (b - 1)))

module _ (c : Crypto) (sk : c.RsaPrivateKey) (pk : c.RsaPublicKey) where
  -- What the signer returned verifies for the hash and the timestamp.
  abbrev pub Genuine : Sha256Hash → Timestamp → Outcome (Result SignError RsaSignature) → Type 0
  Genuine h t panicked = ⊥
  Genuine h t (returned (err _)) = Unit
  Genuine h t (returned (ok s)) = verify_timestamp_signature c pk h t s ≡ ok tt

  pub generate-Genuine :
      (signer : Signer) (joined : Bool) (h : Sha256Hash) (t : Timestamp)
      → IsKeyPair c sk pk
      → Genuine h t (generate_timestamp_signature c signer joined sk h t)
  unfolding generate_timestamp_signature
  generate-Genuine slow false h t pair = tt
  generate-Genuine accelerated joined h t pair =
      elim (Outcome-cases (sign_with_timestamp c sk h t)) [
        | inl p ↦ absurd (sign_with_timestamp_no_panic c sk pk h t pair p)
        | inr (inl (e, p)) ↦ rw (p, generate_timestamp_signature) tt
        | inr (inr (s, p)) ↦
            rw (p, generate_timestamp_signature) (sign-verify c sk pk h t s pair p).1
      ]
  generate-Genuine slow true h t pair = elim (Outcome-cases (sign_with_timestamp c sk h t)) [
    | inl p ↦ absurd (sign_with_timestamp_no_panic c sk pk h t pair p)
    | inr (inl (e, p)) ↦ rw (p, generate_timestamp_signature) tt
    | inr (inr (s, p)) ↦ rw (p, generate_timestamp_signature) (sign-verify c sk pk h t s pair p).1
  ]

  -- A request that ends the connection: there was a token to pay with, or a statement has failed, the first
  -- of the coming ones that does.
  abbrev pub Cut : ℕ → Sqlite → Sqlite → Type 0
  Cut b before after = (1 ≤ b) ⊎ ((text : String) × FailedWith text before after)

  -- The end of a `SignHash` request, from an account of `b` tokens in the database `before`, and the time `now`.
  abbrev pub SignPost :
      String
      → Sha256Hash
      → Option ℕ
      → ℕ
      → List HistoryRow
      → Sqlite
      → Answer Bool × StsServerState
      → Type 0
  SignPost name h now b history before (answer (Response.token h' s t) logout, st) =
      (logout ≡ false)
      × (h' ≡ h)
      × (now ≡ some t.nanos)
      × (verify_timestamp_signature c pk h t s ≡ ok tt)
      × (1 ≤ b)
      × Holds name st.database.tables (b - 1)
      × (st.database.tables.history ≡ history ++ row_of name t s ∷ [])
  SignPost name h now b history before (answer Response.not_enough_tokens logout, st) =
      (logout ≡ false)
      × (b ≡ 0)
      × Holds name st.database.tables b
      × (st.database.tables.history ≡ history)
  SignPost name h now b history before (answer (Response.operation_error _) logout, st) =
      (logout ≡ false) × (1 ≤ b) × Kept name b history st.database.tables
  SignPost name h now b history before (answer _ _, st) = ⊥
  SignPost name h now b history before (failed _, st) =
      Kept name b history st.database.tables × Cut b before st.database
  SignPost name h now b history before (Answer.panicked, st) = ⊥
