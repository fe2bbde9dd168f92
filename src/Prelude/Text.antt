-- ===== src/Prelude/Text.antt =====
-- Texts: concatenation, and the decimal form of a number.
use Prim.Native.Nat.{ℕ, zero, suc, ◌/◌, ◌%◌}
use Prim.Native.String.{String, ◌++◌ as ◌<>◌}
use crab_rs.Prelude.Tests.{ltb, ◌==◌, if◌then◌else◌}
pub use Prim.Native.String.{◌++◌ as ◌<>◌}

digit : ℕ → String
digit d =
    if d == 0
    then "0"
    else if d == 1
    then "1"
    else if d == 2
    then "2"
    else if d == 3
    then "3"
    else if d == 4
    then "4"
    else if d == 5
    then "5"
    else if d == 6
    then "6"
    else if d == 7
    then "7"
    else if d == 8
    then "8"
    else "9"

-- Ten rounds are enough for a number of 32 bits.
digits : ℕ → ℕ → String
unfolding digit
digits zero n = ""
digits (suc fuel) n =
    let rest = digits fuel (n / 10) in if ltb n 10 then digit n else rest <> digit (n % 10)

-- How `u32` is printed.
unfoldable pub decimal : ℕ → String
unfolding digits
decimal n = digits 10 n
