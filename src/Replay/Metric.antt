-- ===== src/Replay/Metric.antt =====
-- The metrics that a replay compares, and `compareMetric`, `mergeOutcome` and `qualityGateState`.
use codex_prompt_better.Base.{
  String, Bool, true, false, not, ◌||◌, if◌then◌else◌, str_eq, Option, none, some, List, [], ◌∷◌,
}
use codex_prompt_better.Base.Floats.{Floats}
use codex_prompt_better.Contracts.{
  CoverageState, is_complete, MetricStatus, improved, worsened, flat, mixed, insufficient,
}

pub data Polarity : Type 0 where
  contextual lower_better higher_better guardrail : Polarity
  other_polarity : String → Polarity

pub data Outcome : Type 0 where
  unchanged improvement mixture regression : Outcome
  other_outcome : String → Outcome

pub data GateState : Type 0 where
  pass fail unknown : GateState
  other_gate : String → GateState

unfoldable pub merge_outcome : Outcome → MetricStatus → Outcome
merge_outcome outcome worsened = regression
merge_outcome regression mixed = regression
merge_outcome _ mixed = mixture
merge_outcome regression insufficient = regression
merge_outcome _ insufficient = mixture
merge_outcome unchanged improved = improvement
merge_outcome outcome improved = outcome
merge_outcome outcome flat = outcome

abbrev pub is_fail : GateState → Bool
is_fail fail = true
is_fail _ = false

abbrev pub is_pass : GateState → Bool
is_pass pass = true
is_pass _ = false

-- The loop of `qualityGateState` over the states of the guardrails.
unfoldable pub gate_loop : GateState → List GateState → GateState
gate_loop state [] = state
gate_loop state (s ∷ rest) =
    let after = gate_loop (if is_pass s then state else unknown) rest in
    if is_fail s then fail else after

unfoldable pub quality_gate_state : List GateState → GateState
unfolding gate_loop
quality_gate_state [] = unknown
quality_gate_state (s ∷ rest) = gate_loop pass (s ∷ rest)

module _ (floats : Floats) where
  open floats use {F, finite, eq, lt}

  -- The fields of `contracts.MetricResult` that the comparison reads.
  pub record Metric : Type 0 where
    pub name : String
    pub version : String
    pub native_value : Option F
    pub coverage : CoverageState

  abbrev pub higher_is_better : Polarity → String → Bool
  higher_is_better higher_better name = true
  higher_is_better guardrail name = not (str_eq name "tool_error_rate")
  higher_is_better _ name = false

  abbrev pub is_contextual : Polarity → Bool
  is_contextual contextual = true
  is_contextual _ = false

  -- `compareMetric` behind the tests of its first `if`, on two finite values.
  unfoldable pub compare_values : F → F → Polarity → String → MetricStatus
  compare_values prior current polarity name =
      if eq prior current
      then flat
      else if is_contextual polarity
      then mixed
      else if (if higher_is_better polarity name then lt prior current else lt current prior)
      then improved
      else worsened

  finite_value : Option F → Option F
  finite_value none = none
  finite_value (some v) = if finite v then some v else none

  -- `polarity` is `none` where the metric has no prior or no definition (`found` is false).
  unfoldable pub compare_metric : Option (Metric × Polarity) → Metric → MetricStatus
  unfolding compare_values finite_value
  compare_metric none current = insufficient
  compare_metric (some (prior, polarity)) current = elim (finite_value prior.native_value) [
    | none ↦ insufficient
    | some before ↦ elim (finite_value current.native_value) [
      | none ↦ insufficient
      | some after ↦
          if not (str_eq prior.version current.version)
            || not (is_complete prior.coverage)
            || not (is_complete current.coverage)
          then insufficient
          else compare_values before after polarity current.name
    ]
  ]
