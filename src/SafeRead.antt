-- ===== src/SafeRead.antt =====
-- shared_library/src/safe_read.rs: opening a file, and reading it in chunks up to the size that its
-- metadata declared. The operating system and the standard library are not part of the repository:
-- what a file name's extension is, and what opening a file gives, are parameters; each read of the
-- open file gives at least one byte unless the file is at its end, or it fails. The proofs are in
-- the module below.
pub mod Chunks
pub mod Total
use stss.Prelude.{
  ℕ, zero, suc, ◌-◌, Bool, true, false, Option, none, some, List, [], ◌∷◌, ◌++◌, String, Result, ok,
  err, map_err, length, take, drop, ◌==◌, str_eq, if◌then◌else◌,
}
use Prim.Native.Nat.{min}

pub data SafeReadError : Type 0 where
  wrong_extension : String → String → SafeReadError
  open_not_found : String → SafeReadError
  open_permission_denied : String → SafeReadError
  open_generic metadata memory read : String → String → SafeReadError

pub data OpenErrorKind : Type 0 where
  not_found permission_denied other_kind : OpenErrorKind

pub record OpenError : Type 0 where
  pub kind : OpenErrorKind
  pub text : String

-- One call of `read` on the open file: it fails, or it gives up to this many bytes and one.
pub data ReadAnswer : Type 0 where
  fails : String → ReadAnswer
  gives : ℕ → ReadAnswer

-- An open file: its content as reading will find it, what its metadata says, and how the reads go;
-- when the list is used up, a read gives as much as it can.
pub record File : Type 0 where
  pub content : List ℕ
  pub metadata_len : Result String ℕ
  pub reads : List ReadAnswer
  pub reservable : Result String (Unit {0})

-- `GenericSafeFileReader`; `limit` is what `Take` has left, `reservable` the answer of `try_reserve`.
pub record SafeFileReader : Type 0 where
  pub content : List ℕ
  pub limit : ℕ
  pub reads : List ReadAnswer
  pub filepath : String
  pub total_size : ℕ
  pub reservable : Result String (Unit {0})

abbrev pub open_error : String → OpenError → SafeReadError
open_error path e = elim e.kind [
  | not_found ↦ open_not_found path
  | permission_denied ↦ open_permission_denied path
  | other_kind ↦ open_generic path e.text
]

-- The bytes of one read of at most `space` bytes, and the reader after it.
abbrev pub give : ℕ → SafeFileReader → List ReadAnswer → Result String (List ℕ) × SafeFileReader
give n r rest =
    let chunk = take n r.content in
    (
      ok chunk,
      record r { content = drop n r.content; limit = r.limit - length chunk; reads = rest },
    )

module _ (chunk_size : ℕ) where
  -- `Take<File>::read`
  unfoldable pub read_answered :
      List ReadAnswer → SafeFileReader → Result String (List ℕ) × SafeFileReader
  read_answered [] r = give (min chunk_size r.limit) r []
  read_answered (fails text ∷ rest) r = (err text, record r { reads = rest })
  read_answered (gives n ∷ rest) r = give (min (suc n) (min chunk_size r.limit)) r rest

  unfoldable pub read_take : SafeFileReader → Result String (List ℕ) × SafeFileReader
  unfolding read_answered
  read_take r = if r.limit == 0 then (ok [], r) else read_answered r.reads r

  abbrev pub chunk_of : String → Result String (List ℕ) → Option (Result SafeReadError (List ℕ))
  chunk_of path (ok []) = none
  chunk_of path (ok (b ∷ bs)) = some (ok (b ∷ bs))
  chunk_of path (err text) = some (err (read path text))

  unfoldable pub next_chunk :
      SafeFileReader → Option (Result SafeReadError (List ℕ)) × SafeFileReader
  unfolding read_take
  next_chunk r = let (a, r') = read_take r in (chunk_of r.filepath a, r')

  -- The loop of `safe_read`; the fuel bounds the number of its turns.
  unfoldable pub read_chunks : ℕ → SafeFileReader → List ℕ → Option (Result SafeReadError (List ℕ))
  unfolding next_chunk
  read_chunks zero r full_buffer = none
  read_chunks (suc fuel) r full_buffer =
      let (c, r') = next_chunk r in
      elim c [
        | none ↦ some (ok full_buffer)
        | some (err e) ↦ some (err e)
        | some (ok chunk) ↦ read_chunks fuel r' (full_buffer ++ chunk)
      ]

  -- The method `safe_read`, on a 64-bit target.
  unfoldable pub safe_read_all : SafeFileReader → Option (Result SafeReadError (List ℕ))
  safe_read_all r = elim r.reservable [
    | err text ↦ some (err (memory r.filepath text))
    | ok _ ↦ read_chunks (suc r.limit) r []
  ]

module _ (extension : String → Option String) (open_file : String → Result OpenError File) where
  abbrev pub opened : String → Result OpenError File → Result SafeReadError SafeFileReader
  opened path (err e) = err (open_error path e)
  opened path (ok f) = elim f.metadata_len [
    | err text ↦ err (metadata path text)
    | ok file_len ↦ ok (record {
      content = f.content;
      limit = file_len;
      reads = f.reads;
      filepath = path;
      total_size = file_len;
      reservable = f.reservable;
    })
  ]

  abbrev pub has_extension : String → String → Bool
  has_extension path expected = elim (extension path) [
    | none ↦ false
    | some ext ↦ str_eq ext expected
  ]

  unfoldable pub new : String → Option String → Result SafeReadError SafeFileReader
  new path none = opened path (open_file path)
  new path (some expected) =
      if has_extension path expected
      then opened path (open_file path)
      else err (wrong_extension path expected)

  -- The function `safe_read`, with the chunks of `SafeFileReader`.
  unfoldable pub safe_read : String → Option String → Option (Result SafeReadError (List ℕ))
  unfolding new safe_read_all
  safe_read path expected = elim (new path expected) [
    | err e ↦ some (err e)
    | ok reader ↦ safe_read_all 8192 reader
  ]
