-- ===== src/Base/Floats.antt =====
-- Go's float64 as far as the modelled code looks at one: an abstract type with the tests it uses.
use Prim.Native.Nat.{ℕ}
use mathlib.Core.Bool.{Bool, ◌||◌}
use codex_prompt_better.Base.Integers.{ℤ}

pub record Floats : Type 1 where
  pub F : Type 0
  -- neither NaN nor an infinity
  pub finite : F → Bool
  pub eq : F → F → Bool
  pub lt : F → F → Bool

-- The operations of the code that calculates, with its constants.
pub record Arithmetic (floats : Floats) : Type 0 where
  pub zero : floats.F
  pub hundredths : ℕ → floats.F  -- the literal 0.01, 0.02, …
  pub of_int : ℤ → floats.F
  pub sub : floats.F → floats.F → floats.F
  pub add : floats.F → floats.F → floats.F
  pub mul : floats.F → floats.F → floats.F
  pub div : floats.F → floats.F → floats.F
  pub abs : floats.F → floats.F
  pub signbit : floats.F → Bool
  pub infinite : floats.F → floats.F  -- math.Copysign(math.Inf(1), x)

-- `a <= b`; both are false if one is not a number.
abbrev pub float_le : (floats : Floats) → floats.F → floats.F → Bool
float_le floats a b = floats.lt a b || floats.eq a b
