-- ===== src/SafeRead/Chunks.antt =====
-- Reading a file in chunks: `GenericSafeFileReader::safe_read` of shared_library/src/safe_read.rs.
use stss.Prelude.{
  ℕ, zero, suc, ◌-◌, ◌≤◌, ◌<◌, ◌≡◌, ◌⊎◌, inl, inr, refl, sym, ap, ◌∙◌, arith, Bool, true, false,
  Option, none, some, List, [], ◌∷◌, ◌++◌, String, Result, ok, err, length, take, drop, ◌==◌,
  ==_iff, Bool-cases,
}
use mathlib.Core.List.{append-nil, append_assoc}
use Prim.Native.Nat.{min}
use stss.SafeRead.{
  SafeReadError, read, memory, ReadAnswer, fails, gives, SafeFileReader, read_answered, read_take,
  next_chunk, read_chunks, safe_read_all, give, chunk_of,
}

abbrev pub any_fails : List ReadAnswer → Bool
any_fails [] = false
any_fails (fails text ∷ rest) = true
any_fails (gives n ∷ rest) = any_fails rest

take-nil : (n : ℕ) → take {A = ℕ} n [] ≡ []
take-nil zero = refl
take-nil (suc n) = refl

-- A read of some bytes of the limit leaves the rest for the reads that follow.
give_rest :
    (n limit : ℕ) (c : List ℕ)
    → n ≤ limit
    → take n c ++ take (limit - length (take n c)) (drop n c) ≡ take limit c
give_rest zero limit c h = ap (λ k. take k c) (omega arith)
give_rest (suc n) limit [] h = take-nil (limit - 0) ∙ sym (take-nil limit)
give_rest (suc n) zero (x ∷ c) h = absurd (omega (arith, h))
give_rest (suc n) (suc limit) (x ∷ c) h =
    ap (λ xs. x ∷ xs)
      (ap (λ k. take n c ++ take k (drop n c)) (omega arith)
        ∙ give_rest n limit c (omega (arith, h)))

-- One chunk, and what is left to read.
abbrev StepPost : SafeFileReader → Option (Result SafeReadError (List ℕ)) × SafeFileReader → Type 0
StepPost r (none, r') = take r.limit r.content ≡ []
StepPost r (some (err e), r') =
    ((text : String) × (e ≡ read r.filepath text)) × (any_fails r.reads ≡ true)
StepPost r (some (ok chunk), r') =
    (chunk ++ take r'.limit r'.content ≡ take r.limit r.content)
    × (r'.limit < r.limit)
    × (r'.filepath ≡ r.filepath)
    × (any_fails r'.reads ≡ true → any_fails r.reads ≡ true)

module _ (chunk_size : ℕ) where
  abbrev Chunk : SafeFileReader → Result String (List ℕ) × SafeFileReader → Type 0
  Chunk r (a, r') = StepPost r (chunk_of chunk_size r.filepath a, r')

  give-Chunk :
      (n : ℕ) (r : SafeFileReader) (rest : List ReadAnswer) (c : List ℕ)
      → r.content ≡ c
      → suc n ≤ r.limit
      → (any_fails rest ≡ true → any_fails r.reads ≡ true)
      → Chunk r (give (suc n) r rest)
  give-Chunk n r rest [] e h keep = rw e (take-nil r.limit)
  give-Chunk n r rest (x ∷ xs) e h keep =
      rw e (give_rest (suc n) r.limit (x ∷ xs) h, omega (arith, h), refl, keep)

  some-Chunk :
      (n : ℕ) (r : SafeFileReader) (rest : List ReadAnswer)
      → 1 ≤ n
      → n ≤ r.limit
      → (any_fails rest ≡ true → any_fails r.reads ≡ true)
      → Chunk r (give n r rest)
  some-Chunk zero r rest low h keep = absurd (omega (arith, low))
  some-Chunk (suc n) r rest low h keep = give-Chunk n r rest r.content refl h keep

  read_answered-Chunk :
      (answers : List ReadAnswer) (r : SafeFileReader)
      → r.reads ≡ answers
      → 1 ≤ chunk_size
      → 1 ≤ r.limit
      → Chunk r (read_answered chunk_size answers r)
  unfolding read_answered
  read_answered-Chunk [] r e large more =
      some-Chunk (min chunk_size r.limit) r [] (omega (arith, large, more)) (omega arith) (λ p. cc)
  read_answered-Chunk (fails text ∷ rest) r e large more = ((text, refl), ap any_fails e)
  read_answered-Chunk (gives n ∷ rest) r e large more =
      some-Chunk (min (suc n) (min chunk_size r.limit)) r rest (omega (arith, large, more))
        (omega arith) (λ p. ap any_fails e ∙ p)

  next_chunk-StepPost : (r : SafeFileReader) → 1 ≤ chunk_size → StepPost r (next_chunk chunk_size r)
  unfolding next_chunk
  next_chunk-StepPost r large = elim (Bool-cases (r.limit == 0)) [
    | inl e ↦ rw (e, read_take, (==_iff r.limit 0).0 e) refl
    | inr e ↦
        rw (e, read_take)
          (read_answered-Chunk r.reads r refl large (ground (arith, ==_iff r.limit 0)))
  ]

  -- What reading the whole file gives: all the bytes up to the limit, after those that were there; or
  -- the error of a read that fails.
  abbrev pub ReadPost : SafeFileReader → List ℕ → Option (Result SafeReadError (List ℕ)) → Type 0
  ReadPost r acc none = ⊥
  ReadPost r acc (some (ok bytes)) = bytes ≡ acc ++ take r.limit r.content
  ReadPost r acc (some (err e)) =
      ((text : String) × (e ≡ read r.filepath text)) × (any_fails r.reads ≡ true)

  ReadPost-step :
      (r r' : SafeFileReader) (acc chunk : List ℕ) (a : Option (Result SafeReadError (List ℕ)))
      → StepPost r (some (ok chunk), r')
      → ReadPost r' (acc ++ chunk) a
      → ReadPost r acc a
  ReadPost-step r r' acc chunk (some (ok bytes)) step post =
      post ∙ append_assoc acc chunk _ ∙ ap (λ xs. acc ++ xs) step.0
  ReadPost-step r r' acc chunk (some (err e)) step post =
      ((post.0.0, post.0.1 ∙ ap (λ path. read path post.0.0) step.2), step.3 post.1)
  ReadPost-step r r' acc chunk none step post = absurd post

  abbrev go_on :
      ℕ
      → List ℕ
      → Option (Result SafeReadError (List ℕ)) × SafeFileReader
      → Option (Result SafeReadError (List ℕ))
  go_on fuel acc x = elim x.0 [
    | none ↦ some (ok acc)
    | some (err e) ↦ some (err e)
    | some (ok chunk) ↦ read_chunks chunk_size fuel x.1 (acc ++ chunk)
  ]

  go_on-ReadPost :
      (fuel : ℕ) (r : SafeFileReader) (acc : List ℕ)
      (c : Option (Result SafeReadError (List ℕ)) × SafeFileReader)
      → ((r' : SafeFileReader) (xs : List ℕ)
          → r'.limit < fuel
          → ReadPost r' xs (read_chunks chunk_size fuel r' xs))
      → StepPost r c
      → r.limit < suc fuel
      → ReadPost r acc (go_on fuel acc c)
  go_on-ReadPost fuel r acc (none, r') again post h =
      sym (append-nil acc) ∙ ap (λ xs. acc ++ xs) (sym post)
  go_on-ReadPost fuel r acc (some (err e), r') again post h = post
  go_on-ReadPost fuel r acc (some (ok chunk), r') again post h =
      ReadPost-step r r' acc chunk _ post (again r' (acc ++ chunk) (omega (arith, h, post.1)))

  -- With a buffer of at least one byte and more fuel than bytes of the limit, the loop ends: with all
  -- the bytes up to the limit, or with the error of a failed read.
  pub read_chunks-ReadPost :
      (fuel : ℕ) (r : SafeFileReader) (acc : List ℕ)
      → 1 ≤ chunk_size
      → r.limit < fuel
      → ReadPost r acc (read_chunks chunk_size fuel r acc)
  unfolding read_chunks
  read_chunks-ReadPost zero r acc large h = absurd (omega (arith, h))
  read_chunks-ReadPost (suc fuel) r acc large h =
      go_on-ReadPost fuel r acc (next_chunk chunk_size r)
        (λ r' xs small. read_chunks-ReadPost fuel r' xs large small) (next_chunk-StepPost r large) h

  -- What reading a whole file gives: the content up to the size that the metadata declared, a
  -- refused allocation, or a failed read; with buffers of at least one byte it always ends.
  abbrev pub WholePost : SafeFileReader → Option (Result SafeReadError (List ℕ)) → Type 0
  WholePost r none = ⊥
  WholePost r (some (ok bytes)) = (bytes ≡ take r.limit r.content) × (r.reservable ≡ ok tt)
  WholePost r (some (err e)) =
      ((text : String) × (r.reservable ≡ err text) × (e ≡ memory r.filepath text))
      ⊎ ((any_fails r.reads ≡ true) × ((text : String) × (e ≡ read r.filepath text)))

  whole :
      (r : SafeFileReader) (a : Option (Result SafeReadError (List ℕ)))
      → r.reservable ≡ ok tt
      → ReadPost r [] a
      → WholePost r a
  whole r none reserved post = absurd post
  whole r (some (ok bytes)) reserved post = (post, reserved)
  whole r (some (err e)) reserved post = inr (post.1, post.0)

  whole_read :
      (r : SafeFileReader) (a : Result String (Unit {0}))
      → r.reservable ≡ a
      → 1 ≤ chunk_size
      → WholePost r (elim a [
        | err text ↦ some (err (memory r.filepath text))
        | ok _ ↦ read_chunks chunk_size (suc r.limit) r []
      ])
  whole_read r (err text) e large = inl (text, e, refl)
  whole_read r (ok _) e large =
      whole r _ e (read_chunks-ReadPost (suc r.limit) r [] large (omega arith))

  -- With a buffer of at least one byte, however the reads split the file, reading it whole ends,
  -- with one of: the content up to the size that the metadata declared; the memory error, if the
  -- allocation is refused; a read error, if some read fails.
  pub safe_read_all-WholePost :
      (r : SafeFileReader) → 1 ≤ chunk_size → WholePost r (safe_read_all chunk_size r)
  unfolding safe_read_all
  safe_read_all-WholePost r large = whole_read r r.reservable refl large
