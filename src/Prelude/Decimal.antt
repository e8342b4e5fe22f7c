-- ===== src/Prelude/Decimal.antt =====
-- Rust's decimal printing of integers.
use Prim.Native.Nat.{ℕ, zero, suc, ◌/◌, ◌%◌}
use Prim.Native.String.{String, ◌++◌}
use stss.Prelude.Tests.{◌==◌, ltb, if◌then◌else◌}
use stss.Prelude.Ints.{ℤ, pos, negsuc}

unfoldable pub digit : ℕ → String
digit d =
    if d == 0
    then "0"
    else if d == 1
    then "1"
    else if d == 2
    then "2"
    else if d == 3
    then "3"
    else if d == 4
    then "4"
    else if d == 5
    then "5"
    else if d == 6
    then "6"
    else if d == 7
    then "7"
    else if d == 8
    then "8"
    else "9"

-- An `i64` has 19 digits at most.
unfoldable pub show_digits : ℕ → ℕ → String
unfolding digit
show_digits zero n = ""
show_digits (suc fuel) n =
    let high = show_digits fuel (n / 10) in if ltb n 10 then digit n else high ++ digit (n % 10)

unfoldable pub show_i64 : ℤ → String
unfolding show_digits
show_i64 (pos n) = show_digits 20 n
show_i64 (negsuc n) = "-" ++ show_digits 20 (suc n)

-- A `u16` has 5 digits at most.
unfoldable pub show_u16 : ℕ → String
unfolding show_digits
show_u16 n = show_digits 5 n

-- A `u32` has 10 digits at most.
unfoldable pub show_u32 : ℕ → String
unfolding show_digits
show_u32 n = show_digits 10 n
