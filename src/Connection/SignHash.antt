-- ===== src/Connection/SignHash.antt =====
-- A `SignHash` request from its beginning to its end: `session_handler` of
-- server/src/connection_handler.rs.
use stss.Prelude.{
  ℕ, ◌+◌, ◌-◌, ◌≤◌, ◌≡◌, inl, inr, refl, ap, ◌∙◌, Option, none, some, String, Result, ok, err,
  arith, List, [], ◌∷◌, ◌++◌,
}
use mathlib.Core.Path.{subst, subst⁻¹}
use stss.Protocol.{Sha256Hash, RsaSignature, Timestamp}
use stss.Protocol.Timestamps.{new}
use stss.Protocol.Signing.{Outcome, returned, panicked, verify_timestamp_signature, IsKeyPair}
use stss.TimeOracle.{time_now, since_epoch}
use stss.Database.{select_tokens, add_user_tokens, subtract_user_tokens, add_user_record}
use stss.Database.Schema.{
  Tables, HistoryRow, AddTokensError, token_overflow, SubtractTokensError, insufficient_tokens,
  AddRecordError,
}
use stss.Database.Monad.{Sqlite}
use stss.Database.Tokens.{
  Holds, AddPost, SubtractPost, add_user_tokens-AddPost, subtract_user_tokens-SubtractPost,
}
use stss.Database.Records.{row_of, RecordPost, add_user_record-RecordPost}
use stss.Database.Invariant.{subtract_user_tokens-Change}
use stss.Database.Safety.{IsValid, Change-IsValid}
use stss.Connection.Types.{SignError, Signer, Externals, StsServerState, Round}
use stss.Connection.Requests.{
  refund, store_record, record_answer, deliver, sign_at, after_subtraction, handle_sign_hash,
}
use stss.Connection.Accounting.{Kept, Genuine, generate-Genuine, SignPost}

-- An account whose token has been taken.
abbrev Paid : String → ℕ → List HistoryRow → Tables → Type 0
Paid name b history t = (t.history ≡ history) × (1 ≤ b) × Holds name t (b - 1)

Paid-Kept :
    (name : String) (b : ℕ) (history : List HistoryRow) (t u : Tables)
    → Paid name b history t
    → u ≡ t
    → Kept name b history u
Paid-Kept name b history t u paid e = (
  ap (λ (v : Tables). v.history) e ∙ paid.0,
  inr (paid.1, subst⁻¹ (λ v. Holds name v (b - 1)) e paid.2),
)

back : (b : ℕ) → 1 ≤ b → b - 1 + 1 ≡ b
back b h = omega arith

refund-Kept :
    (name : String) (b : ℕ) (history : List HistoryRow) (t : Tables) (r : Result AddTokensError ℕ)
    (s s' : Sqlite)
    → s.tables ≡ t
    → Paid name b history t
    → AddPost name 1 (some (b - 1)) s (r, s')
    → Kept name b history s'.tables
refund-Kept name b history t (ok total) s s' e paid post = (
  post.2.history ∙ ap (λ (v : Tables). v.history) e ∙ paid.0,
  inl (subst (Holds name s'.tables) (post.0 ∙ back b paid.1) post.1),
)
refund-Kept name b history t (err token_overflow) s s' e paid post =
    Paid-Kept name b history t _ paid (post.0 ∙ e)
refund-Kept name b history t (err AddTokensError.user_does_not_exist) s s' e paid post =
    Paid-Kept name b history t _ paid (post.0 ∙ e)
refund-Kept name b history t (err (AddTokensError.internal_data_base _)) s s' e paid post =
    Paid-Kept name b history t _ paid (post.0 ∙ e)

module _ (x : Externals) (sk : x.crypto.RsaPrivateKey) (pk : x.crypto.RsaPublicKey) where
  record-SignPost :
      (name : String) (h : Sha256Hash) (t : Timestamp) (sign : RsaSignature) (b : ℕ)
      (history : List HistoryRow) (before : Sqlite) (st : StsServerState)
      (r : Result AddRecordError (Unit {0})) (db : Sqlite)
      → verify_timestamp_signature x.crypto pk h t sign ≡ ok tt
      → Paid name b history st.database.tables
      → RecordPost name t sign st.database (r, db)
      → SignPost x.crypto sk pk name h
          (some t.nanos)
          b
          history
          before
          (record_answer name h sign t r, record st { database = db })
  record-SignPost name h t sign b history before st (ok _) db good paid post = (
    refl,
    refl,
    refl,
    good,
    paid.1,
    record {
      tokens =
          ap (λ users. select_tokens name (record { users = users; history = [] })) post.1
          ∙ paid.2.tokens;
      bound = paid.2.bound;
    },
    post.0 ∙ ap (λ rows. rows ++ row_of name t sign ∷ []) paid.0,
  )
  record-SignPost name h t sign b history before st (err AddRecordError.user_does_not_exist) db good
        paid post =
      (Paid-Kept name b history _ _ paid post.0, inl paid.1)
  record-SignPost name h t sign b history before st (err (AddRecordError.internal_data_base _)) db
        good paid post =
      (Paid-Kept name b history _ _ paid post.0, inl paid.1)

  deliver-SignPost :
      (name : String) (h : Sha256Hash) (t : Timestamp) (o : Outcome (Result SignError RsaSignature))
      (b : ℕ) (history : List HistoryRow) (before : Sqlite) (st : StsServerState)
      → IsValid st.database.tables
      → Genuine x.crypto sk pk h t o
      → Paid name b history st.database.tables
      → SignPost x.crypto sk pk name h (some t.nanos) b history before (deliver name h t o st)
  unfolding deliver refund store_record
  deliver-SignPost name h t panicked b history before st v good paid = absurd good
  deliver-SignPost name h t (returned (err e)) b history before st v good paid = (
    refl,
    paid.1,
    refund-Kept name b history st.database.tables (add_user_tokens name 1 st.database).0 st.database
        _ refl paid (add_user_tokens-AddPost name 1 (some (b - 1)) st.database v.accounts paid.2),
  )
  deliver-SignPost name h t (returned (ok sign)) b history before st v good paid =
      let (r, db) = add_user_record name t sign st.database in
      record-SignPost name h t sign b history before st r db good paid
        (add_user_record-RecordPost name t sign st.database)

  module _ (signer : Signer) where
    sign_at-SignPost :
        (name : String) (round : Round) (h : Sha256Hash) (now : Option ℕ) (b : ℕ)
        (history : List HistoryRow) (before : Sqlite) (st : StsServerState)
        → IsKeyPair x.crypto sk pk
        → IsValid st.database.tables
        → Paid name b history st.database.tables
        → SignPost x.crypto sk pk name h now b history before
            (sign_at x sk signer name round h now st)
    unfolding sign_at
    sign_at-SignPost name round h none b history before st pair v paid =
        (Paid-Kept name b history _ _ paid refl, inl paid.1)
    sign_at-SignPost name round h (some nanos) b history before st pair v paid =
        deliver-SignPost name h (new nanos) _ b history before st v
          (generate-Genuine x.crypto sk pk signer round.joined h (new nanos) pair) paid

    after_subtraction-SignPost :
        (name : String) (round : Round) (h : Sha256Hash) (b : ℕ) (s : Sqlite)
        (r : Result SubtractTokensError ℕ) (st : StsServerState)
        → IsKeyPair x.crypto sk pk
        → IsValid st.database.tables
        → Holds name s.tables b
        → SubtractPost name 1 (some b) s (r, st.database)
        → SignPost x.crypto sk pk name h
            (since_epoch (time_now round.local_now st.offset_nanos))
            b
            s.tables.history
            s
            (after_subtraction x sk signer name round h r st)
    unfolding after_subtraction
    after_subtraction-SignPost name round h b s (ok left) st pair v account post =
        sign_at-SignPost name round h _ b s.tables.history s st pair v (
          post.2.history,
          omega (arith, post.0),
          subst (Holds name st.database.tables) (omega (arith, post.0)) post.1,
        )
    after_subtraction-SignPost name round h b s (err insufficient_tokens) st pair v account post = (
      refl,
      omega (arith, post.1),
      subst⁻¹ (λ t. Holds name t b) post.0 account,
      ap (λ (t : Tables). t.history) post.0,
    )
    after_subtraction-SignPost name round h b s (err SubtractTokensError.user_does_not_exist) st
          pair v account post =
        (
          (
            ap (λ (t : Tables). t.history) post.0,
            inl (subst⁻¹ (λ t. Holds name t b) post.0 account),
          ),
          cc (post.1),
        )
    after_subtraction-SignPost name round h b s (err (SubtractTokensError.internal_data_base e)) st
          pair v account post =
        let (text, _, stopped) = post.1 in
        (
          (
            ap (λ (t : Tables). t.history) post.0,
            inl (subst⁻¹ (λ t. Holds name t b) post.0 account),
          ),
          inr (text, stopped),
        )

    -- What a user with `b` tokens gets for a `SignHash` request, with a 2048-bit key pair and
    -- tables that satisfy the invariant. A token is the requested hash at the server's time with a
    -- signature that the client's check accepts; it costs one of the tokens and is the last row of
    -- the history. `NotEnoughTokens` comes only without tokens, with the account and the history as
    -- before; and without tokens it is what comes, or a statement fails and the connection ends. Every
    -- other end, an error of the operation or of the connection, leaves the history as it was and `b`
    -- tokens, or `b - 1`. Nothing panics.
    pub handle_sign_hash-SignPost :
        (name : String) (round : Round) (h : Sha256Hash) (b : ℕ) (st : StsServerState)
        → IsKeyPair x.crypto sk pk
        → IsValid st.database.tables
        → Holds name st.database.tables b
        → SignPost x.crypto sk pk name h
            (since_epoch (time_now round.local_now st.offset_nanos))
            b
            st.database.tables.history
            st.database
            (handle_sign_hash x sk signer name round h st)
    unfolding handle_sign_hash
    handle_sign_hash-SignPost name round h b st pair v account =
        let (r, db) = subtract_user_tokens name 1 st.database in
        after_subtraction-SignPost name round h b st.database r (record st { database = db }) pair
          (Change-IsValid (subtract_user_tokens-Change name 1 st.database v.accounts) v) account
          (subtract_user_tokens-SubtractPost name 1 (some b) st.database v.accounts account)
