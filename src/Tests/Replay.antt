-- ===== src/Tests/Replay.antt =====
-- A comparison whose candidate is promoted.
use codex_prompt_better.Base.{
  ℕ, ◌≡◌, ◌≢◌, ◌↔◌, ◌⊎◌, refl, String, true, false, ◌==◌, ltb, ok, some, [], ◌∷◌, some_of, each_of,
  Option,
}
use codex_prompt_better.Base.Floats.{Floats}
use codex_prompt_better.Contracts.{complete, improved}
use codex_prompt_better.Replay.Metric.{
  Polarity, lower_better, improvement, pass, is_pass, is_fail, quality_gate_state, compare_metric,
  merge_outcome,
}
use codex_prompt_better.Replay.Compare.{
  Audit, Comparison, compare, index_baseline, compare_loop, compare_next, conclude, compare_missing,
}
use codex_prompt_better.Replay.Decision.{decide, promote, rollback}
use codex_prompt_better.Replay.Outcomes.{
  is_worsened, is_doubtful, is_improved, outcome_of, compare-outcome_of,
}
use codex_prompt_better.Replay.Gates.{decide-compare}

-- Whole numbers in the place of the floating-point ones.
abbrev pub whole_floats : Floats
whole_floats = record { F = ℕ; finite = λ x. true; eq = λ x y. x == y; lt = λ x y. ltb x y }

abbrev pub lower_is_better : String → Option Polarity
lower_is_better name = some lower_better

abbrev pub audit : String → ℕ → Audit whole_floats lower_is_better
audit hash value = record {
  revision_hash = hash;
  metrics =
      record { name = "retries"; version = "1"; native_value = some value; coverage = complete }
      ∷ [];
  guardrails = pass ∷ [];
}

abbrev pub a_comparison : Comparison whole_floats lower_is_better
a_comparison = record {
  baseline_hash = "before";
  candidate_hash = "after";
  statuses = ("retries", improved) ∷ [];
  outcome = improvement;
  quality_gate_state = pass;
}

a_comparison_made :
    compare whole_floats lower_is_better (audit "before" 5) (audit "after" 3) ≡ ok a_comparison
unfolding compare index_baseline compare_loop compare_next conclude compare_missing
    quality_gate_state compare_metric merge_outcome
a_comparison_made = refl

compare-outcome_of_example : improvement ≡ outcome_of (improved ∷ [])
compare-outcome_of_example =
    compare-outcome_of whole_floats lower_is_better (audit "before" 5) (audit "after" 3)
      a_comparison a_comparison_made

decide-compare_example :
    ((decide improvement pass ≡ promote) ↔ (
      (some_of is_worsened (improved ∷ []) ≡ false)
      × (some_of is_doubtful (improved ∷ []) ≡ false)
      × (some_of is_improved (improved ∷ []) ≡ true)
      × (pass ∷ [] ≢ [])
      × (each_of is_pass (pass ∷ []) ≡ true)))
    × ((decide improvement pass ≡ rollback)
        ↔ ((some_of is_worsened (improved ∷ []) ≡ true) ⊎ (some_of is_fail (pass ∷ []) ≡ true)))
decide-compare_example =
    decide-compare whole_floats lower_is_better (audit "before" 5) (audit "after" 3) a_comparison
      a_comparison_made
