-- ===== src/Base/Patterns.antt =====
-- Go's strings.HasPrefix, strings.HasSuffix, strings.Contains and strings.ToLower, and tests on all
-- runes of a text. What depends on Unicode's tables is a parameter.
use Prim.Native.Nat.{ℕ, zero, suc}
use Prim.Native.Char.{Char}
use Prim.Native.String.{String, [], ◌∷◌, count, ◌++◌ as append}
use mathlib.Core.Bool.{Bool, true, false, ◌&&◌, ◌||◌}
use text.Mathlib.Text.{starts_with, ◌==◌ as str_eq}
use codex_prompt_better.Base.Tests.{if◌then◌else◌}

-- `unicode.ToLower`, `unicode.IsLetter`, `unicode.IsDigit` and `unicode.IsSpace`.
pub record Unicode : Type 0 where
  pub lower : Char → Char
  pub is_letter : Char → Bool
  pub is_digit : Char → Bool
  pub is_space : Char → Bool

abbrev pub has_prefix : String → String → Bool
has_prefix s t = starts_with s t

unfoldable pub has_suffix : String → String → Bool
has_suffix [] t = str_eq [] t
has_suffix (c ∷ s) t = str_eq (c ∷ s) t || has_suffix s t

unfoldable pub str_contains : String → String → Bool
str_contains [] t = starts_with [] t
str_contains (c ∷ s) t = starts_with (c ∷ s) t || str_contains s t

unfoldable pub to_lower : (Char → Char) → String → String
to_lower lower [] = []
to_lower lower (c ∷ s) = lower c ∷ to_lower lower s

unfoldable pub each_rune : (Char → Bool) → String → Bool
each_rune p [] = true
each_rune p (c ∷ s) = p c && each_rune p s

unfoldable pub drop_chars : ℕ → String → String
drop_chars zero s = s
drop_chars (suc n) [] = []
drop_chars (suc n) (c ∷ s) = drop_chars n s

-- `strings.TrimLeftFunc`, `strings.TrimRightFunc` and, for the test of spaces, `strings.TrimSpace`.
unfoldable pub trim_left : (Char → Bool) → String → String
trim_left p [] = []
trim_left p (c ∷ s) = if p c then trim_left p s else c ∷ s

abbrev attach : Bool → Char → String → String
attach true c [] = []
attach true c (d ∷ s) = c ∷ d ∷ s
attach false c s = c ∷ s

unfoldable pub trim_right : (Char → Bool) → String → String
trim_right p [] = []
trim_right p (c ∷ s) = attach (p c) c (trim_right p s)

abbrev pub trim_space : Unicode → String → String
trim_space unicode s = trim_right unicode.is_space (trim_left unicode.is_space s)

-- `strings.TrimSuffix` of a text that is not empty, `strings.TrimPrefix`, and `strings.Replace` of
-- the first occurrence.
unfoldable pub trim_suffix : String → String → String
trim_suffix [] t = []
trim_suffix (c ∷ s) t = let rest = c ∷ trim_suffix s t in if str_eq (c ∷ s) t then "" else rest

unfoldable pub trim_prefix : String → String → String
unfolding drop_chars
trim_prefix s t = if starts_with s t then drop_chars (count t) s else s

unfoldable pub replace_first : String → String → String → String
unfolding drop_chars
replace_first [] old new = []
replace_first (c ∷ s) old new =
    let rest = c ∷ replace_first s old new in
    if starts_with (c ∷ s) old then append new (drop_chars (count old) (c ∷ s)) else rest
