-- ===== src/Base/Lexicographic.antt =====
-- Comparisons by one key after another.
use Prim.Native.Nat.{ℕ}
use Prim.Native.String.{String}
use mathlib.Core.Path.{◌≡◌}
use mathlib.Core.Logic.{inl, inr}
use mathlib.Core.Bool.{Bool, false, not}
use native.Mathlib.Omega.{arith}
use text.Mathlib.Text.{◌==◌ as str_eq}
use text.Mathlib.TextEquality.{eq_iff}
use codex_prompt_better.Base.Tests.{ltb, ◌==◌, if◌then◌else◌, Bool-cases}
use codex_prompt_better.Base.Text.{str_lt, str_lt_asym, str_lt_weak, str_lt_total, str_lt_irrefl}
use codex_prompt_better.Base.Sorting.{IsStrictWeak}

module _ {ℓ} {A : Type ℓ} (next : A → A → Bool) where
  abbrev pub by_largest : (A → ℕ) → A → A → Bool
  by_largest key a b = if not (key a == key b) then ltb (key b) (key a) else next a b

  abbrev pub by_least : (A → ℕ) → A → A → Bool
  by_least key a b = if not (key a == key b) then ltb (key a) (key b) else next a b

  abbrev pub by_text : (A → String) → A → A → Bool
  by_text key a b = if not (str_eq (key a) (key b)) then str_lt (key a) (key b) else next a b

  module _ (w : IsStrictWeak next) where
    pub by_largest-weak : (key : A → ℕ) → IsStrictWeak (by_largest key)
    by_largest-weak key = record {
      asym = λ x y h. ground (arith, w.asym x y);
      weak = λ x y z h k. ground (arith, w.weak x y z);
    }

    pub by_least-weak : (key : A → ℕ) → IsStrictWeak (by_least key)
    by_least-weak key = record {
      asym = λ x y h. ground (arith, w.asym x y);
      weak = λ x y z h k. ground (arith, w.weak x y z);
    }

    by_text-first :
        (key : A → String) (x y : A) → by_text key x y ≡ false → str_lt (key x) (key y) ≡ false
    by_text-first key x y h = elim (Bool-cases (str_eq (key x) (key y))) [
      | inl e ↦ let same = (eq_iff (key x) (key y)).0 e in rw same (str_lt_irrefl (key y))
      | inr e ↦ ground arith
    ]

    by_text_trans :
        (key : A → String) (x y z : A)
        → by_text key x y ≡ false
        → by_text key y z ≡ false
        → by_text key x z ≡ false
    by_text_trans key x y z h k =
        let first = by_text-first key x y h in
        let second = by_text-first key y z k in
        elim (Bool-cases (str_eq (key x) (key z))) [
          | inr other ↦ rw other (str_lt_weak (key x) (key y) (key z) first second)
          | inl e ↦
              let ends = (eq_iff (key x) (key z)).0 e in
              let back : str_lt (key y) (key x) ≡ false = rw ends second in
              let same = str_lt_total (key x) (key y) first back in
              ground (arith, w.weak x y z, eq_iff (key x) (key y), eq_iff (key y) (key z))
        ]

    pub by_text-weak : (key : A → String) → IsStrictWeak (by_text key)
    by_text-weak key = record {
      asym = λ x y h. ground (
        arith,
        w.asym x y,
        str_lt_asym (key x) (key y),
        eq_iff (key x) (key y),
        eq_iff (key y) (key x),
      );
      weak = by_text_trans key;
    }
