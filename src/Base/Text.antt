-- ===== src/Base/Text.antt =====
-- The order of Go's strings. Go compares bytes; on UTF-8 text that is the order of code points.
use Prim.Native.Nat.{Ordering}
use Prim.Native.String.compare
use Prim.Native.String.{String, [], ◌∷◌, compare}
use mathlib.Core.Path.{◌≡◌, refl}
use mathlib.Core.Logic.{inl, inr}
use mathlib.Core.Bool.{Bool, true, false}
use native.Mathlib.Omega.{arith}
use text.Mathlib.Text.{is_lt}
use text.Mathlib.TextPositions.{compare_refl}
use codex_prompt_better.Base.Tests.{Bool-cases}
use text.Mathlib.TextEquality.{path_by_compare}

abbrev pub str_lt : String → String → Bool
str_lt s t = is_lt (compare s t)

flip : Ordering → Ordering
flip Ordering.lt = Ordering.gt
flip Ordering.eq = Ordering.eq
flip Ordering.gt = Ordering.lt

compare-flip : (s t : String) → compare t s ≡ flip (compare s t)
unfolding flip
compare-flip [] [] = refl
compare-flip [] (d ∷ t) = rw (compare.nil-cons d t) (compare.cons-nil d t)
compare-flip (c ∷ s) [] = rw (compare.cons-nil c s) (compare.nil-cons c s)
compare-flip (c ∷ s) (d ∷ t) =
    ground (arith, compare-flip s t, compare.cons-cons c d s t, compare.cons-cons d c t s)

pub str_lt_asym : (s t : String) → str_lt s t ≡ true → str_lt t s ≡ false
unfolding flip
str_lt_asym s t h = ground (arith, compare-flip s t)

-- What stands before one text does not stand behind another that it does not stand before.
str_lt_trans : (s t u : String) → str_lt s t ≡ true → str_lt t u ≡ true → str_lt s u ≡ true
str_lt_trans [] [] u h k = k
str_lt_trans [] (d ∷ t) [] h k = ground (arith, compare.cons-nil d t)
str_lt_trans [] (d ∷ t) (e ∷ u) h k = ground (arith, compare.nil-cons e u)
str_lt_trans (c ∷ s) [] u h k = ground (arith, compare.cons-nil c s)
str_lt_trans (c ∷ s) (d ∷ t) [] h k = ground (arith, compare.cons-nil d t)
str_lt_trans (c ∷ s) (d ∷ t) (e ∷ u) h k = ground (
  arith,
  str_lt_trans s t u,
  compare.cons-cons c d s t,
  compare.cons-cons d e t u,
  compare.cons-cons c e s u,
  path_by_compare s t,
  path_by_compare t u,
)

-- Texts that are not in order either way are one text.
pub str_lt_total : (s t : String) → str_lt s t ≡ false → str_lt t s ≡ false → s ≡ t
unfolding flip
str_lt_total s t h k = path_by_compare s t (ground (arith, compare-flip s t))

pub str_lt_irrefl : (s : String) → str_lt s s ≡ false
str_lt_irrefl s = ground (arith, compare_refl s)

-- What does not stand before goes on not standing before: the order is a strict weak one.
pub str_lt_weak : (s t u : String) → str_lt s t ≡ false → str_lt t u ≡ false → str_lt s u ≡ false
str_lt_weak s t u h k = elim (Bool-cases (str_lt s u)) [
  | inr e ↦ e
  | inl e ↦ elim (Bool-cases (str_lt t s)) [
    | inl f ↦ absurd (cc (str_lt_trans t s u f e))
    | inr f ↦ let same = str_lt_total s t h f in rw same k
  ]
]
