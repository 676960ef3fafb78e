-- ===== src/Audit/Snapshot.antt =====
-- What an audit is made from, and the eight detectors of `detect`. The counts have passed `Compute`,
-- so their differences are those of numbers between zero and the largest int.
use codex_prompt_better.Base.{
  zero, String, Bool, true, false, ◌&&◌, if◌then◌else◌, str_eq, ℕ, List, [], ◌∷◌, Option, each_of,
}
use codex_prompt_better.Base.Floats.{Floats, Arithmetic, float_le}
use codex_prompt_better.Base.Integers.{ℤ, pos, is_positive, int_sub}
use codex_prompt_better.Contracts.{CoverageState}
use codex_prompt_better.Diagnosis.{Finding, Observation, evaluate}
use codex_prompt_better.Recommendation.{Feedback}
use codex_prompt_better.Metrics.Compute.{Input}
use codex_prompt_better.Baseline.{Comparison}
use codex_prompt_better.Audit.References.{merge_refs}

module _ (floats : Floats) where
  -- The fields that the engine reads. `confounder_strata` has the field Matched of each stratum and
  -- `guardrails` the field State of each.
  pub record Snapshot : Type 0 where
    pub reference : String
    pub as_of : ℕ
    pub coverage : CoverageState
    pub metrics : Input floats
    pub governance_overhead : Input floats
    pub passive_polling_refs : List String
    pub repeated_call_refs : List String
    pub necessary_work_refs : List String
    pub comparisons : String → Option (Comparison floats)
    pub confounder_strata : List Bool
    pub guardrails : List String
    pub included_turns : ℤ
    pub included_tool_calls : ℤ
    pub included_evidence : ℤ
    pub material_evidence_revision : String
    pub existing_rule_coverage : String → Bool
    pub feedback : String → Option Feedback

  -- `normalizeSnapshot` for the fields above, from line 358.
  unfoldable pub normalize_snapshot : Snapshot → Snapshot
  normalize_snapshot s =
      let revision =
        if str_eq s.material_evidence_revision ""
        then s.reference
        else s.material_evidence_revision in
      let revised = record s { material_evidence_revision = revision } in
      if is_zero s.included_turns && is_positive s.metrics.completed_turns
      then record revised {
        included_turns = s.metrics.completed_turns;
        included_tool_calls = s.metrics.tool_calls;
        included_evidence = s.metrics.accepted_evidence;
      }
      else revised
    where
      is_zero : ℤ → Bool
      is_zero (pos zero) = true
      is_zero _ = false

  module _ (arithmetic : Arithmetic floats) where
    open arithmetic use {zero as nought, hundredths, of_int, div}

    abbrev pub is_above_zero : floats.F → Bool
    is_above_zero r = floats.lt nought r

    abbrev pub at_most : ℤ → ℤ → floats.F → Bool
    at_most p d r = float_le floats (div (of_int p) (of_int d)) r

    abbrev pub Detection : Type 0
    Detection = Observation is_above_zero at_most

    -- The fields that the detectors share, those that are left out among them.
    abbrev pub detection : Snapshot → String → String → String → String → ℤ → ℤ → Detection
    detection s name reason check class positive total = record {
      code = name;
      cause = reason;
      exception_check = check;
      classification = class;
      coverage = s.coverage;
      positive_count = positive;
      denominator = total;
      minimum_sample = pos 1;
      minimum_rate = nought;
      evidence_refs = s.metrics.evidence_refs;
      counterevidence = [];
      required_work = false;
      confounder_matched = each_of (λ matched. matched) s.confounder_strata;
    }

    unfoldable pub detections : Snapshot → List Detection
    unfolding merge_refs
    detections s =
        let m = s.metrics in
        detection s "scope_attribution_gap"
          "completed turns lack explicit normalized task attribution"
          "privacy-suppressed and genuinely unknown attribution remain unknown" "uncertain"
          (int_sub m.completed_turns m.attributed_turns) m.completed_turns
        ∷ record (detection s "boundary_violation"
            "structured boundary decision denied or recorded a violation"
            "host-authoritative denial is necessary and never bypassed" "necessary"
            m.boundary_violations m.boundary_decisions) { required_work = true }
        ∷ detection s "checkpoint_gap"
            "structured checkpoint omitted completion, next action, or gate state"
            "checkpoints not required for read-only bounded work" "avoidable"
            (int_sub m.checkpoints m.complete_checkpoints) m.checkpoints
        ∷ record (detection s "passive_polling" "unchanged-state passive polling"
            "required waits and user cadence excluded" "avoidable" m.passive_wait_calls
            m.tool_calls) {
              minimum_sample = pos 5;
              minimum_rate = hundredths 10;
              evidence_refs = merge_refs (s.passive_polling_refs ∷ m.evidence_refs ∷ []);
              counterevidence = s.necessary_work_refs;
            }
        ∷ record (detection s "repeated_unchanged_call" "same canonical call in one state epoch"
            "mutations, changed arguments, retries, and final gates excluded" "avoidable"
            m.repeated_calls m.tool_calls) {
              minimum_sample = pos 5;
              minimum_rate = hundredths 10;
              evidence_refs = merge_refs (s.repeated_call_refs ∷ m.evidence_refs ∷ []);
              counterevidence = s.necessary_work_refs;
            }
        ∷ record (detection s "tool_error_burst" "tool failures exceeded the guarded rate"
            "external and expected failures remain confounders" "uncertain" m.tool_errors
            m.tool_calls) { minimum_sample = pos 5; minimum_rate = hundredths 5 }
        ∷ detection s "missing_validation" "observable mutations lack structured validation"
            "read-only and no-op state epochs excluded" "avoidable"
            (int_sub m.observable_mutations m.validated_mutations) m.observable_mutations
        ∷ detection s "privacy_redaction_gap" "accepted evidence lacks a complete redaction state"
            "not-needed redaction is an explicit passing state" "avoidable"
            (int_sub m.accepted_evidence m.redacted_evidence) m.accepted_evidence
        ∷ []

    unfoldable pub detect : Snapshot → List Finding
    unfolding detections evaluate
    detect s = evaluate is_above_zero at_most (detections s)
