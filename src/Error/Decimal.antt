-- ===== src/Error/Decimal.antt =====
-- Integers as Rust prints them: the decimal digits, after a minus sign where negative.
use Prim.Native.Nat.{◌%◌}
use Prim.Native.String.{◌++◌}
use grpc_php_rs.Common.{ℕ, zero, suc, ◌/◌, String, ltb, ◌==◌, if◌then◌else◌, ℤ, pos, negsuc}

digit : ℕ → String
digit d =
    if d == 0
    then "0"
    else if d == 1
    then "1"
    else if d == 2
    then "2"
    else if d == 3
    then "3"
    else if d == 4
    then "4"
    else if d == 5
    then "5"
    else if d == 6
    then "6"
    else if d == 7
    then "7"
    else if d == 8
    then "8"
    else "9"

-- The digits of a number, with fuel for one digit more than there are.
decimal_fuel : ℕ → ℕ → String
unfolding digit
decimal_fuel zero n = ""
decimal_fuel (suc f) n =
    let rest = decimal_fuel f (n / 10) ++ digit (n % 10) in if ltb n 10 then digit n else rest

decimal : ℕ → String
unfolding decimal_fuel
decimal n = decimal_fuel (suc n) n

unfoldable pub to_string : ℤ → String
unfolding decimal
to_string (pos n) = decimal n
to_string (negsuc n) = "-" ++ decimal (suc n)
