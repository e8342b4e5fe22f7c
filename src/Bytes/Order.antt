-- ===== src/Bytes/Order.antt =====
-- Encoding and decoding are inverse, and the byte order of the encodings is the numeric order.
use Prim.Native.Nat.{compare}
use native.Mathlib.Nat.{pow-suc}
use mathlib.Core.Path.{subst}
use stss.Prelude.{
  ℕ, zero, suc, ◌+◌, ◌*◌, ◌/◌, ◌%◌, ◌^◌, ◌<◌, ◌≡◌, refl, ap, sym, ◌∙◌, List, [], ◌∷◌, ◌++◌, arith,
  length, length-append, All, All-append,
}
use stss.Bytes.{IsByte, to_be_bytes, from_be_acc, from_be_bytes, then_with, memcmp}

pub length-to_be_bytes : (w n : ℕ) → length (to_be_bytes w n) ≡ w
unfolding to_be_bytes
length-to_be_bytes zero n = refl
length-to_be_bytes (suc w) n = omega (
  arith,
  length-append (to_be_bytes w (n / 256)) ((n % 256) ∷ []),
  length-to_be_bytes w (n / 256),
)

pub to_be_bytes-IsByte : (w n : ℕ) → All IsByte (to_be_bytes w n)
unfolding to_be_bytes
to_be_bytes-IsByte zero n = tt
to_be_bytes-IsByte (suc w) n =
    All-append IsByte (to_be_bytes w (n / 256)) ((n % 256) ∷ []) (to_be_bytes-IsByte w (n / 256))
      (omega arith, tt)

from_be_acc-append :
    (acc : ℕ) (xs : List ℕ) (b : ℕ) → from_be_acc acc (xs ++ b ∷ []) ≡ from_be_acc acc xs * 256 + b
unfolding from_be_acc
from_be_acc-append acc [] b = refl
from_be_acc-append acc (x ∷ xs) b = from_be_acc-append (acc * 256 + x) xs b

below_high : (w n : ℕ) → n < 256 ^ suc w → n / 256 < 256 ^ w
below_high w n h = let k = rw pow-suc at h in omega arith

pub from_be_bytes-to_be_bytes : (w n : ℕ) → n < 256 ^ w → from_be_bytes (to_be_bytes w n) ≡ n
unfolding from_be_bytes to_be_bytes
from_be_bytes-to_be_bytes zero n h = omega arith
from_be_bytes-to_be_bytes (suc w) n h = omega (
  arith,
  from_be_acc-append 0 (to_be_bytes w (n / 256)) (n % 256),
  from_be_bytes-to_be_bytes w (n / 256) (below_high w n h),
)

snoc_view :
    (w : ℕ) (x : ℕ) (xs : List ℕ)
    → length xs ≡ w
    → All IsByte (x ∷ xs)
    → (ys : List ℕ) × (b : ℕ) × (x ∷ xs ≡ ys ++ b ∷ []) × (length ys ≡ w) × All IsByte ys × IsByte b
snoc_view w x [] e h = ([], x, refl, e, tt, h.0)
snoc_view zero x (y ∷ xs) e h = absurd (omega arith)
snoc_view (suc w) x (y ∷ xs) e h =
    let (ys, b, split, len, low, byte) = snoc_view w y xs (omega arith) h.1 in
    (x ∷ ys, b, ap (λ (l : List ℕ). x ∷ l) split, omega arith, (h.0, low), byte)

to_be_bytes-snoc :
    (w : ℕ) (ys : List ℕ) (b : ℕ)
    → IsByte b
    → to_be_bytes w (from_be_bytes ys) ≡ ys
    → to_be_bytes (suc w) (from_be_bytes (ys ++ b ∷ [])) ≡ ys ++ b ∷ []
unfolding to_be_bytes from_be_bytes
to_be_bytes-snoc w ys b h ih =
    let top = from_be_acc-append 0 ys b in
    let high : from_be_acc 0 (ys ++ b ∷ []) / 256 ≡ from_be_acc 0 ys = omega arith in
    let last : from_be_acc 0 (ys ++ b ∷ []) % 256 ≡ b = omega arith in rw (high, last) (rw ih)

pub to_be_bytes-from_be_bytes :
    (w : ℕ) (bs : List ℕ) → length bs ≡ w → All IsByte bs → to_be_bytes w (from_be_bytes bs) ≡ bs
to_be_bytes-from_be_bytes zero [] e h = unfold to_be_bytes in refl
to_be_bytes-from_be_bytes zero (x ∷ xs) e h = absurd (omega arith)
to_be_bytes-from_be_bytes (suc w) [] e h = absurd (omega arith)
to_be_bytes-from_be_bytes (suc w) (x ∷ xs) e h =
    let (ys, b, split, len, low, byte) = snoc_view w x xs (omega arith) h in
    subst (λ l. to_be_bytes (suc w) (from_be_bytes l) ≡ l) (sym split)
      (to_be_bytes-snoc w ys b byte (to_be_bytes-from_be_bytes w ys len low))

memcmp-append :
    (xs ys : List ℕ) (a b : ℕ)
    → length xs ≡ length ys
    → memcmp (xs ++ a ∷ []) (ys ++ b ∷ []) ≡ then_with (memcmp xs ys) (compare a b)
unfolding memcmp
memcmp-append [] [] a b e = ground arith
memcmp-append [] (y ∷ ys) a b e = absurd (omega arith)
memcmp-append (x ∷ xs) [] a b e = absurd (omega arith)
memcmp-append (x ∷ xs) (y ∷ ys) a b e = ground (arith, memcmp-append xs ys a b)

compare_by_digits :
    (n m : ℕ) → then_with (compare (n / 256) (m / 256)) (compare (n % 256) (m % 256)) ≡ compare n m
compare_by_digits n m = ground arith

pub memcmp-to_be_bytes :
    (w n m : ℕ)
    → n < 256 ^ w
    → m < 256 ^ w
    → memcmp (to_be_bytes w n) (to_be_bytes w m) ≡ compare n m
unfolding to_be_bytes
memcmp-to_be_bytes zero n m hn hm = unfold memcmp in ground arith
memcmp-to_be_bytes (suc w) n m hn hm =
    rw
      (memcmp-append _ _ (n % 256) (m % 256)
        (length-to_be_bytes w (n / 256) ∙ sym (length-to_be_bytes w (m / 256))))
      (rw (memcmp-to_be_bytes w (n / 256) (m / 256) (below_high w n hn) (below_high w m hm))
        (compare_by_digits n m))

from_be_bytes-snoc_lt :
    (w : ℕ) (ys : List ℕ) (b : ℕ)
    → IsByte b
    → from_be_bytes ys < 256 ^ w
    → from_be_bytes (ys ++ b ∷ []) < 256 ^ suc w
unfolding from_be_bytes
from_be_bytes-snoc_lt w ys b h ih = rw pow-suc (omega (arith, from_be_acc-append 0 ys b))

pub from_be_bytes-lt :
    (w : ℕ) (bs : List ℕ) → length bs ≡ w → All IsByte bs → from_be_bytes bs < 256 ^ w
from_be_bytes-lt zero [] e h = unfold from_be_bytes from_be_acc in omega arith
from_be_bytes-lt zero (x ∷ xs) e h = absurd (omega arith)
from_be_bytes-lt (suc w) [] e h = absurd (omega arith)
from_be_bytes-lt (suc w) (x ∷ xs) e h =
    let (ys, b, split, len, low, byte) = snoc_view w x xs (omega arith) h in
    subst (λ l. from_be_bytes l < 256 ^ suc w) (sym split)
      (from_be_bytes-snoc_lt w ys b byte (from_be_bytes-lt w ys len low))

-- On arrays of one length the byte order is the numeric order of what they encode.
pub memcmp-eq-compare :
    (w : ℕ) (bs cs : List ℕ)
    → length bs ≡ w
    → length cs ≡ w
    → All IsByte bs
    → All IsByte cs
    → memcmp bs cs ≡ compare (from_be_bytes bs) (from_be_bytes cs)
memcmp-eq-compare w bs cs eb ec hb hc =
    rw (← memcmp-to_be_bytes w _ _ (from_be_bytes-lt w bs eb hb) (from_be_bytes-lt w cs ec hc))
      (rw (to_be_bytes-from_be_bytes w bs eb hb, to_be_bytes-from_be_bytes w cs ec hc))
