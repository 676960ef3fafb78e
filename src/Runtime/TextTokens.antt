-- ===== src/Runtime/TextTokens.antt =====
-- `TextTokens` against a plain sum.
use codex_prompt_better.Base.{
  ℕ, ◌+◌, ◌≤◌, ◌≡◌, Bool, true, false, ◌&&◌, ◌||◌, not, if◌then◌else◌, leb, List, [], ◌∷◌, none,
  some, arith, each_of, Bool-cases, Option-cases, inl, inr, ltb, ◌-◌,
}
use codex_prompt_better.Runtime.{Output, is_counted, max_u64, text_loop, text_tokens}

-- The tokens of the counted outputs that know them.
pub known_sum : List Output → ℕ
known_sum [] = 0
known_sum (o ∷ os) =
    (if is_counted o then elim o.tokens [ none ↦ 0 | some n ↦ n ] else 0) + known_sum os

abbrev pub is_known : Output → Bool
is_known o = not (is_counted o) || elim o.tokens [ none ↦ false | some n ↦ true ]

text_loop-sum :
    (total : ℕ) (known : Bool) (os : List Output)
    → total ≤ max_u64
    → text_loop total known os ≡ (
        if leb (total + known_sum os) max_u64
        then (total + known_sum os, known && each_of is_known os)
        else (0, false))
unfolding text_loop known_sum
text_loop-sum total known [] h = ground arith
text_loop-sum total known (o ∷ os) h = elim (Bool-cases (is_counted o)) [
  | inr skip ↦ ground (arith, text_loop-sum total known os h)
  | inl counts ↦ elim (Option-cases o.tokens) [
    | inl missing ↦ ground (arith, text_loop-sum total false os h)
    | inr (k, given) ↦ elim (Bool-cases (ltb (max_u64 - total) k)) [
      | inl over ↦ ground arith
      | inr fits ↦ ground (arith, text_loop-sum (total + k) known os (ground arith))
    ]
  ]
]

-- The loop returns the sum of the known counts, and whether all are known; a sum that does not fit
-- 64 bits gives 0 and `false`, wherever in the list it passes the bound.
pub text_tokens-sum :
    (os : List Output)
    → text_tokens os
      ≡ (if leb (known_sum os) max_u64 then (known_sum os, each_of is_known os) else (0, false))
unfolding text_tokens
text_tokens-sum os = ground (arith, text_loop-sum 0 true os)
