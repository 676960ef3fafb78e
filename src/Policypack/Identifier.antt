-- ===== src/Policypack/Identifier.antt =====
-- `validIdentifier`, on the code points of a text.
use Prim.Native.Nat.{ℕ}
use Prim.Native.String.{String, [], ◌∷◌, len}
use Prim.Native.Char.{code}
use mathlib.Core.Bool.{Bool, true, false, not, ◌&&◌, ◌||◌}
use codex_prompt_better.Base.{ltb, leb, ◌==◌}

abbrev pub is_letter : ℕ → Bool
is_letter c = leb 97 c && leb c 122

-- A letter, a digit, `_`, `.` or `-`.
abbrev pub is_identifier_char : ℕ → Bool
is_identifier_char c = is_letter c || leb 48 c && leb c 57 || c == 95 || c == 46 || c == 45

unfoldable pub each_char : (ℕ → Bool) → String → Bool
each_char p [] = true
each_char p (c ∷ rest) = p (code c) && each_char p rest

-- The first byte is a letter exactly when the first code point is one. `len` counts bytes.
unfoldable pub valid_identifier : String → ℕ → Bool
unfolding each_char
valid_identifier [] limit = false
valid_identifier (c ∷ rest) limit =
    not (ltb limit (len (c ∷ rest))) && is_letter (code c) && each_char is_identifier_char rest
