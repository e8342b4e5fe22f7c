-- ===== src/Tests/Values.antt =====
-- The theorems on values: timestamps, credentials, signatures, clocks and files.
use Prim.Native.Nat.{compare}
use stss.Prelude.{
  ℕ, ◌*◌, ◌+◌, ◌≡◌, ◌≢◌, ◌⊎◌, refl, true, List, [], ◌∷◌, ◌++◌, ok, pos, negsuc, ◌-ℤ◌, ◌+ℤ◌, arith,
}
use stss.Bytes.{memcmp, to_be_bytes}
use stss.Protocol.{RsaSignature, IsRsaSignature, IsSha256Hash}
use stss.Protocol.Timestamps.{new, as_be_bytes, memcmp-as_be_bytes}
use stss.Protocol.Signing.{
  returned, sign_with_timestamp, verify_timestamp_signature, combined_hash, finish_signature,
  expect_signature, signature_try_from,
}
use stss.Protocol.Binding.{sign-verify, signature_binds}
use stss.TimeOracle.{compute_offset, time_now, total_nanos}
use stss.TimeOracle.Sync.{OffsetPost, compute_offset-OffsetPost, time_now-compute_offset}
use stss.TimeOracle.Worker.{time, network, Tick, asked}
use stss.SafeRead.{SafeFileReader, fails, gives, safe_read_all}
use stss.SafeRead.Chunks.{WholePost, safe_read_all-WholePost}
use stss.FileHasher.{Hasher, IsHasher, HashPost, hash_chunks, hash_chunks-HashPost}
use stss.Tests.Toy.{toy_crypto, toy_pair, toy_hash, pad}

memcmp-as_be_bytes_example :
    memcmp (as_be_bytes (new 255)) (as_be_bytes (new 256)) ≡ compare 255 256
memcmp-as_be_bytes_example = memcmp-as_be_bytes (new 255) (new 256) (omega arith) (omega arith)

abbrev signature : RsaSignature
signature = record { bytes = (toy_hash.bytes ++ as_be_bytes (new 1005)) ++ pad }

signed : sign_with_timestamp toy_crypto true toy_hash (new 1005) ≡ returned (ok signature)
unfolding sign_with_timestamp combined_hash finish_signature expect_signature signature_try_from
    as_be_bytes to_be_bytes
signed = refl

verified : verify_timestamp_signature toy_crypto true toy_hash (new 1005) signature ≡ ok tt
unfolding verify_timestamp_signature combined_hash as_be_bytes to_be_bytes
verified = refl

toy_hash-IsSha256Hash : IsSha256Hash toy_hash
toy_hash-IsSha256Hash = (refl, ground arith)

sign-verify_example :
    IsRsaSignature signature
    × (verify_timestamp_signature toy_crypto true toy_hash (new 1005) signature ≡ ok tt)
sign-verify_example = sign-verify toy_crypto true true toy_hash (new 1005) signature toy_pair signed

signature_binds_example :
    ((toy_hash ≡ toy_hash) × (new 1005 ≡ new 1005))
    ⊎ ((toy_hash.bytes ++ as_be_bytes (new 1005) ≢ toy_hash.bytes ++ as_be_bytes (new 1005))
        × (toy_hash.bytes ++ as_be_bytes (new 1005) ≡ toy_hash.bytes ++ as_be_bytes (new 1005)))
signature_binds_example =
    signature_binds toy_crypto true true toy_hash toy_hash (new 1005) (new 1005) signature toy_pair
      toy_hash-IsSha256Hash toy_hash-IsSha256Hash (omega arith) (omega arith) signed verified

compute_offset-OffsetPost_example :
    OffsetPost 7 25 (pos 9000000000) (compute_offset 7 25 (pos 9000000000))
compute_offset-OffsetPost_example = compute_offset-OffsetPost 7 25 (pos 9000000000)

behind : compute_offset 7 25 (pos 9000000000) ≡ ok (negsuc 1999999974)
unfolding compute_offset total_nanos ◌-ℤ◌ ◌+ℤ◌
behind = refl

time_now-compute_offset_example :
    time_now (pos 9000000000) (negsuc 1999999974) ≡ pos (7 * 1000000000 + 25)
time_now-compute_offset_example =
    time_now-compute_offset 7 25 9000000000 (negsuc 1999999974) (omega arith) behind (omega arith)
      (omega arith)

abbrev answers : List Tick
answers = asked network ∷ asked (time 7 25 (pos 9000000000)) ∷ []

abbrev key_file : SafeFileReader
key_file = record {
  content = 10 ∷ 20 ∷ 30 ∷ 40 ∷ [];
  limit = 3;
  reads = gives 0 ∷ fails "input/output error" ∷ [];
  filepath = "server.key";
  total_size = 3;
  reservable = ok tt;
}

safe_read_all-WholePost_example : WholePost 2 key_file (safe_read_all 2 key_file)
safe_read_all-WholePost_example = safe_read_all-WholePost 2 key_file (omega arith)

-- A hasher that keeps its text.
abbrev plain : Hasher
plain = record {
  Context = List ℕ;
  start = [];
  update = λ bytes chunk. bytes ++ chunk;
  finalize = λ bytes. bytes;
}

plain-IsHasher : IsHasher plain (λ bytes. bytes)
plain-IsHasher = record {
  absorbed = λ bytes. bytes;
  absorbed-start = refl;
  absorbed-update = λ bytes chunk. refl;
  finalize-absorbed = λ bytes. refl;
}

hash_chunks-HashPost_example :
    HashPost (λ bytes. bytes) key_file (hash_chunks plain 2 4 key_file [])
hash_chunks-HashPost_example =
    hash_chunks-HashPost plain (λ bytes. bytes) plain-IsHasher 2 key_file (omega arith)
