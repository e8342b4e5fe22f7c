-- ===== src/SafeRead/Total.antt =====
-- `safe_read` of shared_library/src/safe_read.rs without fuel: its loop always ends.
use stss.Prelude.{
  ℕ, ◌≢◌, refl, Option, none, some, List, String, Result, arith, Result-cases, inl, inr,
}
use stss.SafeRead.{SafeReadError, OpenError, File, SafeFileReader, new, safe_read}
use stss.SafeRead.Chunks.{WholePost, safe_read_all-WholePost}

-- The value of an option that is not empty.
abbrev pub finished : {A : Type 0} (a : Option A) → a ≢ none → A
finished none h = absurd (h refl)
finished (some x) h = x

whole_ends :
    (r : SafeFileReader) (a : Option (Result SafeReadError (List ℕ)))
    → WholePost 8192 r a
    → a ≢ none
whole_ends r none post e = post
whole_ends r (some x) post e = cc

module _ (extension : String → Option String) (open_file : String → Result OpenError File) where
  -- `safe_read` ends on every path.
  pub safe_read_ends :
      (path : String) (expected : Option String)
      → safe_read extension open_file path expected ≢ none
  unfolding safe_read
  safe_read_ends path expected = elim (Result-cases (new extension open_file path expected)) [
    | inl (reader, e) ↦
        rw (e, safe_read) (whole_ends reader _ (safe_read_all-WholePost 8192 reader (omega arith)))
    | inr (e, p) ↦ rw (p, safe_read) (λ q. cc q)
  ]

  unfoldable pub read_file : String → Option String → Result SafeReadError (List ℕ)
  read_file path expected =
      finished (safe_read extension open_file path expected) (safe_read_ends path expected)
