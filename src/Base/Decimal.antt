-- ===== src/Base/Decimal.antt =====
-- `strconv.FormatUint` in base 10.
use Prim.Native.String.{String, ◌++◌}
use Prim.Native.Nat.{ℕ, zero, suc, ◌/◌, ◌%◌}
use codex_prompt_better.Base.Tests.{ltb, ◌==◌, if◌then◌else◌}

unfoldable pub digit : ℕ → String
digit n =
    if n == 0
    then "0"
    else if n == 1
    then "1"
    else if n == 2
    then "2"
    else if n == 3
    then "3"
    else if n == 4
    then "4"
    else if n == 5
    then "5"
    else if n == 6
    then "6"
    else if n == 7
    then "7"
    else if n == 8
    then "8"
    else "9"

-- The last digits of a number, at most as many as the fuel; a number has fewer digits than its
-- successor counts.
unfoldable pub decimal : ℕ → ℕ → String
unfolding digit
decimal zero n = ""
decimal (suc fuel) n =
    let front = decimal fuel (n / 10) in if ltb n 10 then digit n else front ++ digit (n % 10)

unfoldable pub format_uint : ℕ → String
unfolding decimal
format_uint n = decimal (suc n) n
