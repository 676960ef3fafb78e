-- ===== src/Tests/Governance.antt =====
-- An audit with one comparison, from the request to the result.
use mathlib.Core.Option
use codex_prompt_better.Base.{
  ◌≡◌, refl, ◌⊎◌, String, true, false, if◌then◌else◌, str_eq, List, [], ◌∷◌, none, some, Result, ok,
  All, length, tally, min,
}
use codex_prompt_better.Base.Integers.{pos}
use codex_prompt_better.Contracts.{complete, worsened, flat}
use codex_prompt_better.Diagnosis.{Finding}
use codex_prompt_better.Recommendation.{Recommendation, candidate}
use codex_prompt_better.Replay.Metric.{lower_better}
use codex_prompt_better.Metrics.Table.{Definition, new_definition}
use codex_prompt_better.Metrics.Compute.{Input, MetricResult}
use codex_prompt_better.Baseline.{Window, Comparison, apply}
use codex_prompt_better.Baseline.Laws.{claims, IsJustified, apply-IsJustified}
use codex_prompt_better.Baseline.Outlier.{rank, is_outlier, IsDeviation, rank-IsDeviation}
use codex_prompt_better.Audit.Request.{AuditRequest}
use codex_prompt_better.Audit.Snapshot.{Snapshot}
use codex_prompt_better.Audit.Facts.{linked_recommendation, definition_of}
use codex_prompt_better.Audit.Engine.{run}
use codex_prompt_better.Audit.Engine.Laws.{IsAudited, run-IsAudited}
use codex_prompt_better.Tests.FixedPoint.{fixed, fixed_arithmetic}

abbrev input : Input fixed
input = record {
  completed_turns = pos 4;
  attributed_turns = pos 3;
  boundary_decisions = pos 2;
  boundary_violations = pos 0;
  checkpoints = pos 2;
  complete_checkpoints = pos 2;
  total_tokens = pos 400;
  non_cached_input_tokens = pos 200;
  tool_calls = pos 10;
  passive_wait_calls = pos 4;
  tool_results = pos 10;
  oversized_results = pos 1;
  repeated_calls = pos 0;
  tool_errors = pos 0;
  observable_mutations = pos 1;
  validated_mutations = pos 1;
  accepted_evidence = pos 1;
  redacted_evidence = pos 1;
  commentary_messages = pos 4;
  wall_clock_seconds = pos 800;
  active_seconds = pos 400;
  active_runtime_known = true;
  coverage = complete;
  evidence_refs = "evidence-1" ∷ [];
  exclusions = [];
}

abbrev metric : MetricResult fixed
metric = record {
  name = "passive_waits_per_100_tool_calls";
  version = "metric-v1";
  native_value = some (pos 4000);
  native_unit = "calls/100_tool_calls";
  numerator = none;
  denominator = none;
  sample_count = pos 10;
  previous_value = none;
  rolling_median = some (pos 2000);
  rolling_mad = some (pos 100);
  baseline_sample_count = 3;
  absolute_change_previous = none;
  percentage_change_previous = none;
  absolute_change_rolling = none;
  percentage_change_rolling = none;
  workload_adjusted_residual = none;
  practical_threshold = pos 10;
  coverage = complete;
  status = flat;
  status_reason = "";
  confidence = "";
  uncertainty = "none";
  exclusions = [];
  evidence_refs = [];
}

abbrev window : Window fixed
window = record {
  value = some (pos 2000);
  coverage = complete;
  metric_version = "metric-v1";
  comparable = true;
  guardrails_pass = true;
}

abbrev comparison : Comparison fixed
comparison = record {
  previous = window;
  rolling = window ∷ window ∷ window ∷ [];
  seasonal = [];
  workload_expected = none;
  confounders_matched = true;
  hysteresis_active = false;
  persistence_count = pos 2;
  privacy_suppressed = false;
}

abbrev waits : Definition
waits = new_definition "passive_waits_per_100_tool_calls" "" "" lower_better 5 10 [] []

apply-run :
    Option.map (λ r. r.status) (apply fixed fixed_arithmetic metric waits comparison)
    ≡ some worsened
unfolding apply
apply-run = refl

-- Half of the previous value and exactly the median of the baseline, where less is better.
abbrev at_median : Comparison fixed
at_median = record comparison {
  previous = record window { value = some (pos 8000) };
  rolling =
      record window { value = some (pos 4000) }
      ∷ record window { value = some (pos 4000) }
      ∷ record window { value = some (pos 4000) }
      ∷ [];
}

at_median-run :
    Option.map (λ r. r.status) (apply fixed fixed_arithmetic metric waits at_median) ≡ some worsened
unfolding apply
at_median-run = refl

apply-IsJustified_example :
    (r : MetricResult fixed) × (apply fixed fixed_arithmetic metric waits comparison ≡ some r)
    × ((claims r.status ≡ false) ⊎ IsJustified fixed fixed_arithmetic metric waits comparison)
apply-IsJustified_example = apply-IsJustified fixed fixed_arithmetic metric waits comparison

rank-IsDeviation_example :
    (length (rank fixed fixed_arithmetic (metric ∷ []))
      ≡ min 10 (tally (is_outlier fixed fixed_arithmetic) (metric ∷ [])))
    × All
        (IsDeviation fixed fixed_arithmetic (λ m. m.name ≡ metric.name))
        (rank fixed fixed_arithmetic (metric ∷ []))
rank-IsDeviation_example =
    rank-IsDeviation fixed fixed_arithmetic (λ m. m.name ≡ metric.name) (metric ∷ []) (refl, tt)

abbrev snapshot : Snapshot fixed
snapshot = record {
  reference = "all";
  as_of = 9;
  coverage = complete;
  metrics = input;
  governance_overhead = input;
  passive_polling_refs = "evidence-2" ∷ [];
  repeated_call_refs = [];
  necessary_work_refs = [];
  comparisons = λ name. if str_eq name waits.name then some comparison else none;
  confounder_strata = true ∷ [];
  guardrails = "pass" ∷ [];
  included_turns = pos 0;
  included_tool_calls = pos 0;
  included_evidence = pos 0;
  material_evidence_revision = "";
  existing_rule_coverage = λ code. false;
  feedback = λ code. none;
}

abbrev request : AuditRequest
request = record {
  schema_version = "1.0.0";
  kind = "request";
  scope = "portfolio";
  reference = "all";
  configured_sources = "codex" ∷ [];
  starts_at = 1;
  ends_at = 5;
  as_of = 9;
  consent = "granted";
}

abbrev digest : List String → String
digest refs = "digest"

abbrev revise :
    Snapshot fixed
    → List (MetricResult fixed)
    → List Finding
    → List Recommendation
    → Result String String
revise s ms fs rs = ok "revision"

abbrev source : AuditRequest → Result String (Snapshot fixed)
source asked = ok snapshot

run-IsAudited_example :
    IsAudited fixed fixed_arithmetic digest revise source request
      (run fixed fixed_arithmetic digest revise source request)
run-IsAudited_example = run-IsAudited fixed fixed_arithmetic digest revise source request

-- The finding of the privacy detector and its recommendation are not linked to the metric.
abbrev privacy_finding : Finding
privacy_finding = record {
  code = "privacy_redaction_gap";
  detector = "privacy_redaction_gap";
  detector_version = "detector-v1";
  cause = "";
  exception_check = "";
  classification = "avoidable";
  confidence = "high";
  evidence_refs = [];
  counterevidence = [];
}

privacy_link-run :
    Option.map
      (λ r.
        linked_recommendation
          (definition_of "privacy_redaction_coverage")
          (privacy_finding ∷ [])
          (r ∷ []))
      (candidate privacy_finding)
    ≡ some ""
unfolding linked_recommendation candidate
privacy_link-run = refl
