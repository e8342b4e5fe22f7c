-- ===== src/Connection/Refund.antt =====
-- A signature that fails in server/src/connection_handler.rs: the token that was paid comes back.
use stss.Prelude.{ℕ, ◌+◌, ◌-◌, ◌≤◌, ◌≡◌, refl, ◌∙◌, false, some, String, Result, ok, err, arith, []}
use mathlib.Core.Path.{subst}
use stss.Protocol.{Sha256Hash, Response}
use stss.Protocol.Timestamps.{new}
use stss.Protocol.Signing.{returned}
use stss.TimeOracle.{time_now, since_epoch}
use stss.Database.{add_user_tokens, subtract_user_tokens}
use stss.Database.Schema.{AddTokensError, SubtractTokensError}
use stss.Database.Monad.{Sqlite}
use stss.Database.Tokens.{
  Holds, AddPost, SubtractPost, add_user_tokens-AddPost, add_user_tokens_completes,
  subtract_user_tokens-SubtractPost, subtract_user_tokens_completes,
}
use stss.Database.Invariant.{subtract_user_tokens-Change}
use stss.Database.Safety.{IsValid, Change-IsValid}
use stss.Connection.Types.{SignError, Signer, Externals, StsServerState, Round}
use stss.Connection.{answer, generate_timestamp_signature}
use stss.Connection.Requests.{refund, deliver, sign_at, after_subtraction, handle_sign_hash}
use stss.Connection.Delivery.{subtract_quiet}

taken-Holds :
    (name : String) (b left : ℕ) (s : Sqlite) (r : Result SubtractTokensError ℕ) (db : Sqlite)
    → SubtractPost name 1 (some b) s (r, db)
    → r ≡ ok left
    → Holds name db.tables (b - 1)
taken-Holds name b left s (ok left') db post e =
    subst (Holds name db.tables) (omega (arith, post.0)) post.1
taken-Holds name b left s (err _) db post e = cc

given-Holds :
    (name : String) (b total : ℕ) (s : Sqlite) (r : Result AddTokensError ℕ) (db : Sqlite)
    → 1 ≤ b
    → AddPost name 1 (some (b - 1)) s (r, db)
    → r ≡ ok total
    → Holds name db.tables b
given-Holds name b total s (ok total') db enough post e =
    subst (Holds name db.tables) (omega (arith, post.0, enough)) post.1
given-Holds name b total s (err _) db enough post e = cc

module _ (x : Externals) (key : x.crypto.RsaPrivateKey) (signer : Signer) where
  -- With at least one token in an account of valid tables, no failing SQL statement, a clock after
  -- 1970 and a signer that reports an error, `SignHash` is answered with the error of the operation,
  -- and the user has as many tokens as before.
  pub handle_sign_hash_refunds :
      (name : String) (round : Round) (h : Sha256Hash) (b nanos : ℕ) (e : SignError)
      (st : StsServerState)
      → IsValid st.database.tables
      → Holds name st.database.tables b
      → 1 ≤ b
      → st.database.faults ≡ []
      → since_epoch (time_now round.local_now st.offset_nanos) ≡ some nanos
      → generate_timestamp_signature x.crypto signer round.joined key h (new nanos)
        ≡ returned (err e)
      → let (a, st') = handle_sign_hash x key signer name round h st in
        (a ≡ answer (Response.operation_error "Error while performing the operation.") false)
        × Holds name st'.database.tables b
  unfolding handle_sign_hash after_subtraction sign_at deliver refund
  handle_sign_hash_refunds name round h b nanos e st v account enough quiet clock failing =
      let s = st.database in
      let db = (subtract_user_tokens name 1 s).1 in
      let paid : (subtract_user_tokens name 1 s).0 ≡ ok (b - 1) =
        subtract_user_tokens_completes name 1 b s v.accounts account quiet
        ∙ ground (arith, enough) in
      let left =
        taken-Holds name b (b - 1) s _ db
          (subtract_user_tokens-SubtractPost name 1 (some b) s v.accounts account) paid in
      let accounts =
        (Change-IsValid (subtract_user_tokens-Change name 1 s v.accounts) v).accounts in
      let given : (add_user_tokens name 1 db).0 ≡ ok (b - 1 + 1) =
        add_user_tokens_completes name 1 (b - 1) db accounts left (subtract_quiet name 1 s quiet)
        ∙ ground (arith, enough, account.bound) in
      let full =
        given-Holds name b (b - 1 + 1) db _ _ enough
          (add_user_tokens-AddPost name 1 (some (b - 1)) db accounts left) given in
      rw (paid, handle_sign_hash) (rw (clock, sign_at) (rw (failing, sign_at) (refl, full)))
