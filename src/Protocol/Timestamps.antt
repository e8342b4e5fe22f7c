-- ===== src/Protocol/Timestamps.antt =====
-- `Timestamp` of shared_library/src/server_protocol.rs: its constructors and its big-endian bytes.
use Prim.Native.Nat.{compare}
use stss.Prelude.{ℕ, ◌≡◌, List, Result, ok, err, ℤ, pos, negsuc, length, All}
use stss.Bytes.{IsByte, to_be_bytes, from_be_bytes, memcmp}
use stss.Bytes.Order.{
  from_be_bytes-to_be_bytes, to_be_bytes-from_be_bytes, length-to_be_bytes, to_be_bytes-IsByte,
  memcmp-to_be_bytes,
}
use stss.Protocol.{Timestamp, IsTimestamp}

-- `Timestamp::new`
abbrev pub new : ℕ → Timestamp
new n = record { nanos = n }

-- `Timestamp::from_be`; `From<[u8; 16]>` is the same function.
unfoldable pub from_be : List ℕ → Timestamp
from_be be_array = new (from_be_bytes be_array)

unfoldable pub as_be_bytes : Timestamp → List ℕ
as_be_bytes t = to_be_bytes 16 t.nanos

-- `TryFrom<i64>`
pub try_from_i64 : ℤ → Result (Unit {0}) Timestamp
try_from_i64 (pos n) = ok (new n)
try_from_i64 (negsuc n) = err tt

pub length-as_be_bytes : (t : Timestamp) → length (as_be_bytes t) ≡ 16
unfolding as_be_bytes
length-as_be_bytes t = length-to_be_bytes 16 t.nanos

pub as_be_bytes-IsByte : (t : Timestamp) → All IsByte (as_be_bytes t)
unfolding as_be_bytes
as_be_bytes-IsByte t = to_be_bytes-IsByte 16 t.nanos

-- A 128-bit timestamp that is written as 16 big-endian bytes and read back is the same timestamp.
pub from_be-as_be_bytes : (t : Timestamp) → IsTimestamp t → from_be (as_be_bytes t) ≡ t
unfolding from_be as_be_bytes
from_be-as_be_bytes t h = λ i. record { nanos = from_be_bytes-to_be_bytes 16 t.nanos h i }

-- Every 16-byte array is the encoding of the timestamp that it decodes to.
pub as_be_bytes-from_be :
    (bs : List ℕ) → length bs ≡ 16 → All IsByte bs → as_be_bytes (from_be bs) ≡ bs
unfolding from_be as_be_bytes
as_be_bytes-from_be bs e h = to_be_bytes-from_be_bytes 16 bs e h

-- SQLite's comparison of two encoded 128-bit timestamps is the numeric comparison of the
-- timestamps.
pub memcmp-as_be_bytes :
    (s t : Timestamp)
    → IsTimestamp s
    → IsTimestamp t
    → memcmp (as_be_bytes s) (as_be_bytes t) ≡ compare s.nanos t.nanos
unfolding as_be_bytes
memcmp-as_be_bytes s t hs ht = memcmp-to_be_bytes 16 s.nanos t.nanos hs ht
