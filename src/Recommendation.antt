-- ===== src/Recommendation.antt =====
-- internal/recommendation/recommendation.go: the proposals that are made of findings.
pub mod Laws
use codex_prompt_better.Base.{
  ℕ, String, Bool, true, false, not, ◌&&◌, ◌||◌, if◌then◌else◌, str_eq, ltb, ◌==◌, List, [], ◌∷◌,
  ◌++◌, Option, none, some, length,
}
use codex_prompt_better.Base.Sorting.{sort}
use codex_prompt_better.Diagnosis.{Finding, has_code_before}

pub record Feedback : Type 0 where
  pub state : String
  pub cooldown_until : ℕ  -- an instant
  pub evidence_revision : String

-- The maps are functions; one to texts gives the empty text for an absent key, as in Go.
pub record Context : Type 0 where
  pub as_of : ℕ  -- an instant
  pub existing_rule_coverage : String → Bool
  pub feedback : String → Option Feedback
  pub material_evidence_revision : String
  pub evidence_revisions : String → String
  pub quality_guardrails_pass : Bool

pub record Recommendation : Type 0 where
  pub code : String
  pub policy_version : String
  pub lifecycle_state : String
  pub target_surface : String
  pub action : String
  pub expected_movement : String
  pub protected_guardrails : List String
  pub approval_required : Bool
  pub verification : String
  pub risks : List String
  pub evidence_refs : List String

unfoldable pub suppressed : String → Context → Bool
suppressed code context = elim (context.feedback code) [
  | none ↦ false
  | some feedback ↦
      if not (str_eq feedback.state "dismissed")
      then false
      else let specific = context.evidence_revisions code in
        let revision =
          if not (str_eq specific "") then specific else context.material_evidence_revision in
        let new_evidence =
          not (str_eq revision "") && not (str_eq revision feedback.evidence_revision) in
        ltb context.as_of feedback.cooldown_until && not new_evidence
]

unfoldable pub preview :
    Finding → String → String → String → String → String → List String → Recommendation
preview finding code target action movement verification risks = record {
  code = code;
  policy_version = "recommendation-v1";
  lifecycle_state = "proposed";
  target_surface = target;
  action = action;
  expected_movement = movement;
  protected_guardrails =
      "completion" ∷ "permissions" ∷ "privacy" ∷ "quality" ∷ "safety" ∷ "validation" ∷ [];
  approval_required = true;
  verification = verification;
  risks = risks;
  evidence_refs = finding.evidence_refs;
}

unfoldable pub no_action : Recommendation
no_action = record {
  code = "no_action";
  policy_version = "recommendation-v1";
  lifecycle_state = "proposed";
  target_surface = "no_action";
  action = "Keep the current workflow.";
  expected_movement = "none";
  protected_guardrails = "all_configured_quality_and_safety_gates" ∷ [];
  approval_required = false;
  verification = "Re-audit after new comparable evidence is available.";
  risks = [];
  evidence_refs = [];
}

unfoldable pub candidate : Finding → Option Recommendation
unfolding preview
candidate finding =
    if str_eq finding.code "scope_attribution_gap"
    then some (
        preview finding "restore_scope_attribution" "collector_mapping"
          "Restore explicit normalized task attribution at the adapter boundary."
          "higher scope attribution coverage without identity disclosure"
          "Replay the same synthetic attribution fixtures and require observed keyed task aliases."
          ("privacy suppression may keep small cohorts unknown" ∷ []))
    else if str_eq finding.code "checkpoint_gap"
    then some (
        preview finding "complete_checkpoint_contract" "validation_cadence"
          "Record completion, next action, and remaining gate counts at required checkpoints."
          "higher checkpoint completeness without extra checkpoint volume"
          "Replay matched checkpoint fixtures and require all structured fields."
          ("unnecessary checkpoints add governance overhead" ∷ []))
    else if str_eq finding.code "passive_polling"
    then some (
        preview finding "wait_on_state_change" "validation_cadence"
          "Replace unchanged polling with the configured wait or user-requested cadence."
          "lower passive waits with unchanged completion and coverage"
          "Replay a matched window and require fewer unchanged polls with no missed state transition."
          ("external state may require polling" ∷ []))
    else if str_eq finding.code "repeated_unchanged_call"
    then some (
        preview finding "reuse_unchanged_evidence" "tool_output_budget"
          "Reuse the prior bounded result until relevant state changes."
          "lower repeated calls with equal evidence coverage"
          "Replay a matched window and require fewer duplicate calls with equal evidence coverage."
          ("stale evidence after an unobserved mutation" ∷ []))
    else if str_eq finding.code "missing_validation"
    then some (
        preview finding "validate_after_mutation" "validation_cadence"
          "Run the smallest configured validation after each observable mutation."
          "higher validation presence without weakening final gates"
          "Replay the next matched window and require complete mutation validation coverage."
          ("validation cost may rise for mutation-heavy work" ∷ []))
    else if str_eq finding.code "privacy_redaction_gap"
    then some (
        preview finding "restore_redaction_coverage" "project_instruction"
          "Restore configured redaction before accepting additional evidence."
          "complete privacy redaction coverage"
          "Re-run redaction fixtures and require no accepted evidence with unknown redaction state."
          ("suppression may reduce metric coverage" ∷ []))
    else none

-- The second test of the loop.
unfoldable pub skipped : Context → Finding → Bool
unfolding suppressed
skipped context finding =
    str_eq finding.classification "necessary"
    || str_eq finding.classification "uncertain"
    || context.existing_rule_coverage finding.code
    || suppressed finding.code context
    || not context.quality_guardrails_pass

unfoldable pub generate_loop : Context → List Recommendation → List Finding → List Recommendation
unfolding skipped candidate
generate_loop context result [] = result
generate_loop context result (finding ∷ findings) = elim (length result == 5) [
  | true ↦ result
  | false ↦ elim (skipped context finding) [
    | true ↦ generate_loop context result findings
    | false ↦ elim (candidate finding) [
      | none ↦ generate_loop context result findings
      | some r ↦ generate_loop context (result ++ r ∷ []) findings
    ]
  ]
]

-- `if len(result) == 0 { ... }`, and the return.
unfoldable pub or_no_action : List Recommendation → List Recommendation
unfolding no_action
or_no_action [] = no_action ∷ []
or_no_action (r ∷ rs) = r ∷ rs

unfoldable pub generate : List Finding → Context → List Recommendation
unfolding generate_loop or_no_action sort
generate findings context = or_no_action (generate_loop context [] (sort has_code_before findings))
