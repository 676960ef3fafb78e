-- ===== src/Audit/Facts.antt =====
-- `buildReportFacts` of internal/audit/audit.go without the instants, which are copied, and
-- `linkedRecommendation`.
use codex_prompt_better.Base.{
  String, Bool, true, false, ◌&&◌, if◌then◌else◌, str_eq, List, [], ◌∷◌, map, Option, none, some,
  some_of,
}
use codex_prompt_better.Base.Floats.{Floats}
use codex_prompt_better.Contracts.{CoverageState, MetricStatus, unknown}
use codex_prompt_better.Diagnosis.{Finding}
use codex_prompt_better.Recommendation.{Recommendation}
use codex_prompt_better.Replay.Metric.{Polarity, other_polarity}
use codex_prompt_better.Metrics.Table.{Definition, definition}
use codex_prompt_better.Metrics.Compute.{MetricResult}
use codex_prompt_better.Baseline.Outlier.{NativeOutlier}
use codex_prompt_better.Audit.References.{quality_gate_state}

-- The map `recommendationByFinding`; an absent key gives the empty text.
abbrev pub recommendation_by_finding : String → String
recommendation_by_finding code =
    if str_eq code "scope_attribution_gap"
    then "restore_scope_attribution"
    else if str_eq code "checkpoint_gap"
    then "complete_checkpoint_contract"
    else if str_eq code "passive_polling"
    then "wait_on_state_change"
    else if str_eq code "repeated_unchanged_call"
    then "reuse_unchanged_evidence"
    else if str_eq code "missing_validation"
    then "validate_after_mutation"
    else if str_eq code "privacy_redaction_gap"
    then "restore_redaction_coverage"
    else ""

-- The map of the definitions; an absent key gives the zero value.
abbrev zero_definition : Definition
zero_definition = record {
  name = "";
  display_label = "";
  native_unit = "";
  polarity = other_polarity "";
  minimum_sample = 0;
  practical_change = 0;
  minimum_persistence = 0;
  exclusions = [];
  allowed_diagnoses = [];
}

abbrev pub definition_of : String → Definition
definition_of name = elim (definition name) [ none ↦ zero_definition | some d ↦ d ]

unfoldable pub linked_recommendation : Definition → List Finding → List Recommendation → String
linked_recommendation d [] recommendations = ""
linked_recommendation d (f ∷ fs) recommendations =
    let rest = linked_recommendation d fs recommendations in
    let code = recommendation_by_finding f.code in
    if some_of (λ allowed. str_eq allowed f.code) d.allowed_diagnoses
      && some_of (λ (r : Recommendation). str_eq r.code code) recommendations
    then code
    else rest

-- The last finding that a map keeps for the code of a recommendation.
unfoldable pub finding_by_recommendation : Option Finding → List Finding → String → Option Finding
finding_by_recommendation found [] code = found
finding_by_recommendation found (f ∷ fs) code =
    finding_by_recommendation
      (if str_eq (recommendation_by_finding f.code) code then some f else found) fs code

pub record RecommendationFact : Type 0 where
  pub code : String
  pub violated_contract : String
  pub evidence_confidence : String
  pub expected_quality_impact : String

-- The contract and the confidence.
unfoldable pub contract_of : List Finding → Recommendation → String × String
unfolding finding_by_recommendation
contract_of findings item =
    if str_eq item.code "no_action"
    then no_contract
    else elim (finding_by_recommendation none findings item.code) [
      | none ↦ ("", "")
      | some f ↦ (f.cause, f.confidence)
    ]
  where
    no_contract : String × String
    no_contract = ("no violated contract with actionable evidence", "unknown")

unfoldable pub recommendation_fact : List Finding → Recommendation → RecommendationFact
unfolding contract_of
recommendation_fact findings item = record {
  code = item.code;
  violated_contract = (contract_of findings item).0;
  evidence_confidence = (contract_of findings item).1;
  expected_quality_impact = item.expected_movement;
}

pub record MetricFact : Type 0 where
  pub name : String
  pub display_label : String
  pub polarity : Polarity

-- Impact and coverage are absent where no metric has the name.
pub record OutlierFact : Type 0 where
  pub metric : String
  pub impact : Option MetricStatus
  pub coverage : Option CoverageState
  pub recommendation_code : String

pub record ReportFacts : Type 0 where
  pub comparison_coverage : CoverageState
  pub metrics : List MetricFact
  pub quality_gate : String
  pub outliers : List OutlierFact
  pub recommendations : List RecommendationFact

module _ (floats : Floats) where
  abbrev has_comparison : MetricResult floats → Bool
  has_comparison m = elim m.previous_value [
    | some v ↦ true
    | none ↦ elim m.rolling_median [ some v ↦ true | none ↦ false ]
  ]

  unfoldable pub comparison_coverage : List (MetricResult floats) → CoverageState
  comparison_coverage [] = unknown
  comparison_coverage (m ∷ ms) =
      let rest = comparison_coverage ms in if has_comparison m then m.coverage else rest

  abbrev pub metric_fact : MetricResult floats → MetricFact
  metric_fact m = record {
    name = m.name;
    display_label = (definition_of m.name).display_label;
    polarity = (definition_of m.name).polarity;
  }

  unfoldable pub metric_by_name :
      Option (MetricResult floats)
      → List (MetricResult floats)
      → String
      → Option (MetricResult floats)
  metric_by_name found [] name = found
  metric_by_name found (m ∷ ms) name =
      metric_by_name (if str_eq m.name name then some m else found) ms name

  unfoldable pub outlier_fact :
      List (MetricResult floats)
      → List Finding
      → List Recommendation
      → NativeOutlier floats
      → OutlierFact
  unfolding metric_by_name linked_recommendation
  outlier_fact metrics findings recommendations item =
      let found = metric_by_name none metrics item.metric in
      record {
        metric = item.metric;
        impact = elim found [ none ↦ none | some m ↦ some m.status ];
        coverage = elim found [ none ↦ none | some m ↦ some m.coverage ];
        recommendation_code =
            linked_recommendation (definition_of item.metric) findings recommendations;
      }

  unfoldable pub build_report_facts :
      List String
      → List (MetricResult floats)
      → List Finding
      → List Recommendation
      → List (NativeOutlier floats)
      → ReportFacts
  unfolding comparison_coverage outlier_fact recommendation_fact quality_gate_state
  build_report_facts guardrails metrics findings recommendations outliers = record {
    comparison_coverage = comparison_coverage metrics;
    metrics = map metric_fact metrics;
    quality_gate = quality_gate_state guardrails;
    outliers = map (outlier_fact metrics findings recommendations) outliers;
    recommendations = map (recommendation_fact findings) recommendations;
  }
