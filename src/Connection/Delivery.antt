-- ===== src/Connection/Delivery.antt =====
-- When nothing fails, a `SignHash` request of server/src/connection_handler.rs ends as intended.
use stss.Prelude.{
  ℕ, ◌-◌, ◌≤◌, ◌≡◌, ◌≢◌, refl, ◌∙◌, false, none, some, String, Result, ok, err, arith, [],
}
use stss.Protocol.{Sha256Hash, RsaSignature, Timestamp, Response}
use stss.Protocol.Timestamps.{new, as_be_bytes}
use stss.Protocol.Signing.{returned}
use stss.TimeOracle.{time_now, since_epoch}
use stss.Database.{select_tokens, subtract_user_tokens, add_user_record}
use stss.Database.Schema.{SubtractTokensError, has_record, insert_record}
use stss.Database.Monad.{Sqlite, next_fault}
use stss.Database.Tokens.{
  HasAccounts, Holds, SubtractPost, subtract_user_tokens-SubtractPost,
  subtract_user_tokens_completes,
}
use stss.Connection.Types.{Signer, Externals, StsServerState, Round}
use stss.Connection.{answer, generate_timestamp_signature}
use stss.Connection.Requests.{store_record, deliver, sign_at, after_subtraction, handle_sign_hash}

pub subtract_quiet :
    (name : String) (n : ℕ) (s : Sqlite)
    → s.faults ≡ []
    → (subtract_user_tokens name n s).1.faults ≡ []
unfolding subtract_user_tokens next_fault
subtract_quiet name n s quiet = ground arith

record_quiet :
    (name : String) (t : Timestamp) (sign : RsaSignature) (s : Sqlite)
    → s.faults ≡ []
    → select_tokens name s.tables ≢ none
    → has_record name (as_be_bytes t) s.tables.history ≡ false
    → (add_user_record name t sign s).0 ≡ ok tt
unfolding add_user_record insert_record next_fault
record_quiet name t sign s quiet known fresh = ground arith

history_kept :
    (name : String) (b : ℕ) (s : Sqlite) (r : Result SubtractTokensError ℕ) (db : Sqlite) (left : ℕ)
    → SubtractPost name 1 (some b) s (r, db)
    → r ≡ ok left
    → (db.tables.history ≡ s.tables.history) × (select_tokens name db.tables ≢ none)
history_kept name b s (ok left') db left post e = (post.2.history, λ p. cc (post.1.tokens, p))
history_kept name b s (err _) db left post e = cc

module _ (x : Externals) (key : x.crypto.RsaPrivateKey) (signer : Signer) where
  -- With at least one token in an account of valid tables, no failing SQL statement, a clock after
  -- 1970, a signer that succeeds, and no earlier record of this user at this nanosecond,
  -- `SignHash` is answered with the token.
  pub handle_sign_hash_delivers :
      (name : String) (round : Round) (h : Sha256Hash) (b nanos : ℕ) (sign : RsaSignature)
      (st : StsServerState)
      → HasAccounts st.database.tables
      → Holds name st.database.tables b
      → 1 ≤ b
      → st.database.faults ≡ []
      → since_epoch (time_now round.local_now st.offset_nanos) ≡ some nanos
      → generate_timestamp_signature x.crypto signer round.joined key h (new nanos)
        ≡ returned (ok sign)
      → has_record name (as_be_bytes (new nanos)) st.database.tables.history ≡ false
      → (handle_sign_hash x key signer name round h st).0
        ≡ answer (Response.token h sign (new nanos)) false
  unfolding handle_sign_hash after_subtraction sign_at deliver store_record
  handle_sign_hash_delivers name round h b nanos sign st v account enough quiet clock signed fresh =
      let s = st.database in
      let paid : (subtract_user_tokens name 1 s).0 ≡ ok (b - 1) =
        subtract_user_tokens_completes name 1 b s v account quiet ∙ ground (arith, enough) in
      let post = subtract_user_tokens-SubtractPost name 1 (some b) s v account in
      let (kept, known) = history_kept name b s _ _ (b - 1) post paid in
      let stored : (add_user_record name (new nanos) sign (subtract_user_tokens name 1 s).1).0
          ≡ ok tt =
        record_quiet name (new nanos) sign (subtract_user_tokens name 1 s).1
          (subtract_quiet name 1 s quiet) known (rw kept fresh) in
      rw (paid, handle_sign_hash)
        (rw (clock, sign_at) (rw (signed, sign_at) (rw (stored, store_record) refl)))
