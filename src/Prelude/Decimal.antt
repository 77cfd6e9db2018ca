-- ===== src/Prelude/Decimal.antt =====
-- The decimal text of a number, and texts put together, as `format!` does.
use Prim.Native.Nat.{ℕ, zero, suc, ◌/◌, ◌%◌}
use Prim.Native.String.{String, ◌++◌}
use gctrl.Prelude.Tests.{ltb, nat_eq, if◌then◌else◌}

unfoldable pub digit : ℕ → String
digit n =
    if nat_eq n 0
    then "0"
    else if nat_eq n 1
    then "1"
    else if nat_eq n 2
    then "2"
    else if nat_eq n 3
    then "3"
    else if nat_eq n 4
    then "4"
    else if nat_eq n 5
    then "5"
    else if nat_eq n 6
    then "6"
    else if nat_eq n 7
    then "7"
    else if nat_eq n 8
    then "8"
    else "9"

-- A number has no more digits than its value plus one, so `suc n` rounds are enough.
unfoldable pub decimal_rounds : ℕ → ℕ → String
unfolding digit
decimal_rounds zero n = ""
decimal_rounds (suc f) n =
    let rest = decimal_rounds f (n / 10) ++ digit (n % 10) in if ltb n 10 then digit n else rest

unfoldable pub decimal : ℕ → String
unfolding decimal_rounds
decimal n = decimal_rounds (suc n) n

infixl 66 ◌⁀◌
abbrev pub ◌⁀◌ : String → String → String
a ⁀ b = a ++ b
