-- ===== src/Base/Integers.antt =====
-- Go's signed integers where the code tests the sign.
use Prim.Native.Nat.{ℕ, zero, suc, ◌-◌, ◌+◌}
use mathlib.Core.Bool.{Bool, true, false}
use codex_prompt_better.Base.Tests.{if◌then◌else◌, leb, ltb}

pub data ℤ : Type 0 where
  pos : ℕ → ℤ
  negsuc : ℕ → ℤ  -- `negsuc n` is -(n + 1)

-- `0 <= i && i <= n`.
abbrev pub within : ℤ → ℕ → Bool
within (pos i) n = leb i n
within (negsuc i) n = false

-- `i > 0` and `i < j`.
abbrev pub is_positive : ℤ → Bool
is_positive (pos i) = ltb 0 i
is_positive (negsuc i) = false

abbrev pub int_lt : ℤ → ℤ → Bool
int_lt (pos i) (pos j) = ltb i j
int_lt (pos i) (negsuc j) = false
int_lt (negsuc i) (pos j) = true
int_lt (negsuc i) (negsuc j) = ltb j i

abbrev pub int_neg : ℤ → ℤ
int_neg (pos zero) = pos zero
int_neg (pos (suc n)) = negsuc n
int_neg (negsuc n) = pos (suc n)

-- The difference of two numbers.
abbrev pub int_diff : ℕ → ℕ → ℤ
int_diff i j = if leb j i then pos (i - j) else negsuc (j - i - 1)

abbrev pub int_add : ℤ → ℤ → ℤ
int_add (pos i) (pos j) = pos (i + j)
int_add (pos i) (negsuc j) = int_diff i (suc j)
int_add (negsuc i) (pos j) = int_diff j (suc i)
int_add (negsuc i) (negsuc j) = negsuc (suc (i + j))

abbrev pub int_sub : ℤ → ℤ → ℤ
int_sub i j = int_add i (int_neg j)
