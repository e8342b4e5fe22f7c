-- ===== src/FileHasher.antt =====
-- client_core/src/file_hasher.rs: hashing a file chunk by chunk, over the reader of SafeRead. The
-- incremental hasher of the crate `sha2` is a parameter.
use stss.Prelude.{
  ℕ, zero, suc, ◌≡◌, ◌≤◌, refl, sym, ap, ◌∙◌, arith, true, Option, none, some, List, [], ◌++◌,
  String, Result, ok, err, take,
}
use mathlib.Core.Path.{subst⁻¹}
use stss.Protocol.{Sha256Hash}
use stss.SafeRead.{
  SafeReadError, read, OpenError, File, SafeFileReader, new, next_chunk, read_chunks,
}
use stss.SafeRead.Chunks.{any_fails, ReadPost, read_chunks-ReadPost}

-- `Sha256::new`, `update` and `finalize`.
pub record Hasher : Type 1 where
  pub Context : Type 0
  pub start : Context
  pub update : Context → List ℕ → Context
  pub finalize : Context → List ℕ

-- What the crate documents: the chunks of the updates count as one text.
pub record IsHasher (h : Hasher) (sha256 : List ℕ → List ℕ) : Type 0 where
  pub absorbed : List ℕ → h.Context
  pub absorbed-start : absorbed [] ≡ h.start
  pub absorbed-update :
      (bytes chunk : List ℕ) → h.update (absorbed bytes) chunk ≡ absorbed (bytes ++ chunk)
  pub finalize-absorbed : (bytes : List ℕ) → h.finalize (absorbed bytes) ≡ sha256 bytes

module _ (h : Hasher) (chunk_size : ℕ) where
  -- The loop of `hash_file`; the fuel bounds the number of its turns.
  unfoldable pub hash_chunks :
      ℕ → SafeFileReader → h.Context → Option (Result SafeReadError Sha256Hash)
  hash_chunks zero r hasher = none
  hash_chunks (suc fuel) r hasher =
      let (c, r') = next_chunk chunk_size r in
      elim c [
        | none ↦ some (ok (record { bytes = h.finalize hasher }))
        | some (err e) ↦ some (err e)
        | some (ok chunk) ↦ hash_chunks fuel r' (h.update hasher chunk)
      ]

module _ (h : Hasher) (extension : String → Option String)
    (open_file : String → Result OpenError File) where
  unfoldable pub hash_file : String → Option String → Option (Result SafeReadError Sha256Hash)
  hash_file path expected = elim (new extension open_file path expected) [
    | err e ↦ some (err e)
    | ok reader ↦ hash_chunks h 8192 (suc reader.limit) reader h.start
  ]

-- The hash of the bytes that a full read gives.
abbrev pub hash_read :
    (List ℕ → List ℕ)
    → Option (Result SafeReadError (List ℕ))
    → Option (Result SafeReadError Sha256Hash)
hash_read sha256 none = none
hash_read sha256 (some (err e)) = some (err e)
hash_read sha256 (some (ok bytes)) = some (ok (record { bytes = sha256 bytes }))

-- What hashing a file gives: the hash of the content up to the declared size, or a failed read.
abbrev pub HashPost :
    (List ℕ → List ℕ) → SafeFileReader → Option (Result SafeReadError Sha256Hash) → Type 0
HashPost sha256 r none = ⊥
HashPost sha256 r (some (ok digest)) = digest.bytes ≡ sha256 (take r.limit r.content)
HashPost sha256 r (some (err e)) =
    ((text : String) × (e ≡ read r.filepath text)) × (any_fails r.reads ≡ true)

module _ (h : Hasher) (sha256 : List ℕ → List ℕ) (law : IsHasher h sha256) (chunk_size : ℕ) where
  hash_turn :
      (fuel : ℕ) (acc : List ℕ) (c : Option (Result SafeReadError (List ℕ))) (r' : SafeFileReader)
      → ((xs : List ℕ)
          → hash_chunks h chunk_size fuel r' (law.absorbed xs)
            ≡ hash_read sha256 (read_chunks chunk_size fuel r' xs))
      → elim c [
        | none ↦ some (ok (record { bytes = h.finalize (law.absorbed acc) }))
        | some (err e) ↦ some (err e)
        | some (ok chunk) ↦ hash_chunks h chunk_size fuel r' (h.update (law.absorbed acc) chunk)
      ]
        ≡ hash_read sha256 (elim c [
          | none ↦ some (ok acc)
          | some (err e) ↦ some (err e)
          | some (ok chunk) ↦ read_chunks chunk_size fuel r' (acc ++ chunk)
        ])
  hash_turn fuel acc none r' again =
      ap (λ bs. some (ok (record { bytes = bs }))) (law.finalize-absorbed acc)
  hash_turn fuel acc (some (err e)) r' again = refl
  hash_turn fuel acc (some (ok chunk)) r' again =
      ap (hash_chunks h chunk_size fuel r') (law.absorbed-update acc chunk) ∙ again (acc ++ chunk)

  hash_chunks-read_chunks :
      (fuel : ℕ) (r : SafeFileReader) (acc : List ℕ)
      → hash_chunks h chunk_size fuel r (law.absorbed acc)
        ≡ hash_read sha256 (read_chunks chunk_size fuel r acc)
  unfolding hash_chunks read_chunks
  hash_chunks-read_chunks zero r acc = refl
  hash_chunks-read_chunks (suc fuel) r acc =
      let (c, r') = next_chunk chunk_size r in
      hash_turn fuel acc c r' (hash_chunks-read_chunks fuel r')

  hash_read-HashPost :
      (r : SafeFileReader) (a : Option (Result SafeReadError (List ℕ)))
      → ReadPost chunk_size r [] a
      → HashPost sha256 r (hash_read sha256 a)
  hash_read-HashPost r none post = post
  hash_read-HashPost r (some (ok bytes)) post = ap sha256 post
  hash_read-HashPost r (some (err e)) post = post

  -- With a buffer of at least one byte and a hasher that satisfies its law, however the reads split the
  -- file, hashing it ends: with the hash of the content up to the size that the metadata declared, or
  -- with a read error, if some read fails.
  pub hash_chunks-HashPost :
      (r : SafeFileReader)
      → 1 ≤ chunk_size
      → HashPost sha256 r (hash_chunks h chunk_size (suc r.limit) r h.start)
  hash_chunks-HashPost r large =
      subst⁻¹ (HashPost sha256 r)
        (ap (hash_chunks h chunk_size (suc r.limit) r) (sym law.absorbed-start)
          ∙ hash_chunks-read_chunks (suc r.limit) r [])
        (hash_read-HashPost r _
          (read_chunks-ReadPost chunk_size (suc r.limit) r [] large (omega arith)))
