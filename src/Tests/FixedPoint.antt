-- ===== src/Tests/FixedPoint.antt =====
-- Fixed-point numbers with two places, in the place of Go's float64.
use codex_prompt_better.Base.{ℕ, suc, ◌*◌, ◌/◌, Bool, true, false, ◌==◌}
use codex_prompt_better.Base.Floats.{Floats, Arithmetic}
use codex_prompt_better.Base.Integers.{ℤ, pos, negsuc, int_lt, int_neg, int_add, int_sub}

abbrev int_eq : ℤ → ℤ → Bool
int_eq (pos i) (pos j) = i == j
int_eq (negsuc i) (negsuc j) = i == j
int_eq _ _ = false

abbrev magnitude : ℤ → ℕ
magnitude (pos i) = i
magnitude (negsuc i) = suc i

abbrev is_negative : ℤ → Bool
is_negative (pos i) = false
is_negative (negsuc i) = true

abbrev signed : ℤ → ℤ → ℕ → ℤ
signed (pos i) (pos j) n = pos n
signed (negsuc i) (negsuc j) n = pos n
signed _ _ n = int_neg (pos n)

abbrev pub fixed : Floats
fixed = record { F = ℤ; finite = λ v. true; eq = int_eq; lt = int_lt }

abbrev pub fixed_arithmetic : Arithmetic fixed
fixed_arithmetic = record {
  zero = pos 0;
  hundredths = λ n. pos n;
  of_int = λ i. signed i (pos 0) (magnitude i * 100);
  sub = int_sub;
  add = int_add;
  mul = λ a b. signed a b (magnitude a * magnitude b / 100);
  div = λ a b. signed a b (magnitude a * 100 / magnitude b);
  abs = λ a. pos (magnitude a);
  signbit = is_negative;
  infinite = λ a. signed a (pos 0) 1000000000;
}
