-- ===== src/Bytes.antt =====
-- Big-endian bytes of unsigned integers (`u128::to_be_bytes` and `u128::from_be_bytes` of Rust's
-- standard library) and SQLite's order on blobs (`memcmp`, a shorter prefix first). They stand
-- under the timestamps of shared_library/src/server_protocol.rs and the `history` table of
-- server/src/database.rs. The proofs are in the module below.
pub mod Order
use Prim.Native.Nat.{compare, Ordering}
use stss.Prelude.{ℕ, zero, suc, ◌+◌, ◌*◌, ◌/◌, ◌%◌, ◌<◌, List, [], ◌∷◌, ◌++◌}

abbrev pub IsByte : ℕ → Type 0
IsByte b = b < 256

-- The low `w` bytes of `n`, the most significant one first.
unfoldable pub to_be_bytes : ℕ → ℕ → List ℕ
to_be_bytes zero n = []
to_be_bytes (suc w) n = to_be_bytes w (n / 256) ++ (n % 256) ∷ []

from_be_acc : ℕ → List ℕ → ℕ
from_be_acc acc [] = acc
from_be_acc acc (b ∷ bs) = from_be_acc (acc * 256 + b) bs

unfoldable pub from_be_bytes : List ℕ → ℕ
unfolding from_be_acc
from_be_bytes bs = from_be_acc 0 bs

-- The first of two comparisons that decides.
abbrev pub then_with : Ordering → Ordering → Ordering
then_with Ordering.lt b = Ordering.lt
then_with Ordering.eq b = b
then_with Ordering.gt b = Ordering.gt

unfoldable pub memcmp : List ℕ → List ℕ → Ordering
memcmp [] [] = Ordering.eq
memcmp [] (y ∷ ys) = Ordering.lt
memcmp (x ∷ xs) [] = Ordering.gt
memcmp (x ∷ xs) (y ∷ ys) = then_with (compare x y) (memcmp xs ys)
