-- ===== src/Metrics/Compute.antt =====
-- `Compute`: one ratio for each definition of the table.
use codex_prompt_better.Base.{
  ℕ, String, Bool, not, ◌&&◌, ◌||◌, if◌then◌else◌, str_eq, List, [], ◌∷◌, ◌++◌, Option, none, some,
  some_of, Result, ok, err,
}
use codex_prompt_better.Base.Text.{str_lt}
use codex_prompt_better.Base.Floats.{Floats, Arithmetic}
use codex_prompt_better.Base.Integers.{ℤ, pos, int_lt}
use codex_prompt_better.Base.Sorting.{sort}
use codex_prompt_better.Contracts.{CoverageState, is_complete, MetricStatus, flat, insufficient}
use codex_prompt_better.Metrics.Table.{Definition, definition}
use mathlib.Core.Option

pub data Failure : Type 0 where
  inconsistent : Failure  -- the error of inconsistent input
  unknown_definition : Failure  -- the panic

-- The members, if there are all of them.
abbrev pub every {ℓ} : {A : Type ℓ} → List (Option A) → Option (List A)
every [] = some []
every (none ∷ os) = none
every (some a ∷ os) = Option.map (λ rest. a ∷ rest) (every os)

module _ (floats : Floats) where
  open floats use {F}

  pub record Input : Type 0 where
    pub completed_turns : ℤ
    pub attributed_turns : ℤ
    pub boundary_decisions : ℤ
    pub boundary_violations : ℤ
    pub checkpoints : ℤ
    pub complete_checkpoints : ℤ
    pub total_tokens : F
    pub non_cached_input_tokens : F
    pub tool_calls : ℤ
    pub passive_wait_calls : ℤ
    pub tool_results : ℤ
    pub oversized_results : ℤ
    pub repeated_calls : ℤ
    pub tool_errors : ℤ
    pub observable_mutations : ℤ
    pub validated_mutations : ℤ
    pub accepted_evidence : ℤ
    pub redacted_evidence : ℤ
    pub commentary_messages : ℤ
    pub wall_clock_seconds : F
    pub active_seconds : F
    pub active_runtime_known : Bool
    pub coverage : CoverageState
    pub evidence_refs : List String
    pub exclusions : List String

  -- `contracts.MetricResult`.
  pub record MetricResult : Type 0 where
    pub name : String
    pub version : String
    pub native_value : Option F
    pub native_unit : String
    pub numerator : Option F
    pub denominator : Option F
    pub sample_count : ℤ
    pub previous_value : Option F
    pub rolling_median : Option F
    pub rolling_mad : Option F
    pub baseline_sample_count : ℕ
    pub absolute_change_previous : Option F
    pub percentage_change_previous : Option F
    pub absolute_change_rolling : Option F
    pub percentage_change_rolling : Option F
    pub workload_adjusted_residual : Option F
    pub practical_threshold : F
    pub coverage : CoverageState
    pub status : MetricStatus
    pub status_reason : String
    pub confidence : String
    pub uncertainty : String
    pub exclusions : List String
    pub evidence_refs : List String

  abbrev pub stands_before : MetricResult → MetricResult → Bool
  stands_before a b = str_lt a.name b.name

  unfoldable pub answer : Option (List MetricResult) → Result Failure (List MetricResult)
  unfolding sort
  answer none = err unknown_definition
  answer (some results) = ok (sort stands_before results)

  -- Whether a count is negative, and whether one exceeds its total.
  unfoldable pub invalid_counts : Input → Bool
  invalid_counts i =
      some_of (λ n. int_lt n (pos 0))
        (i.completed_turns ∷ i.attributed_turns ∷ i.boundary_decisions ∷ i.boundary_violations
          ∷ i.checkpoints ∷ i.complete_checkpoints ∷ i.tool_calls ∷ i.tool_results
          ∷ i.passive_wait_calls ∷ i.oversized_results ∷ i.repeated_calls ∷ i.tool_errors
          ∷ i.observable_mutations ∷ i.validated_mutations ∷ i.accepted_evidence
          ∷ i.redacted_evidence ∷ i.commentary_messages ∷ [])
      || some_of (λ (p : ℤ × ℤ). int_lt p.1 p.0)
          ((i.attributed_turns, i.completed_turns)
            ∷ (i.boundary_violations, i.boundary_decisions)
            ∷ (i.complete_checkpoints, i.checkpoints)
            ∷ (i.passive_wait_calls, i.tool_calls)
            ∷ (i.oversized_results, i.tool_results)
            ∷ (i.repeated_calls, i.tool_calls)
            ∷ (i.tool_errors, i.tool_calls)
            ∷ (i.validated_mutations, i.observable_mutations)
            ∷ (i.redacted_evidence, i.accepted_evidence)
            ∷ [])

  module _ (arithmetic : Arithmetic floats) where
    open arithmetic use {zero, hundredths, of_int, mul, div}

    unfoldable pub invalid_measurements : Input → Bool
    invalid_measurements i =
        some_of (λ v. floats.lt v zero || not (floats.finite v))
          (i.total_tokens ∷ i.non_cached_input_tokens ∷ i.wall_clock_seconds ∷ i.active_seconds
            ∷ [])
        || floats.lt i.total_tokens i.non_cached_input_tokens
        || floats.lt i.wall_clock_seconds i.active_seconds

    -- `ratio` before the sample is looked at.
    abbrev pub empty_result : Definition → ℤ → Input → MetricResult
    empty_result d denominator i = record {
      name = d.name;
      version = "metric-v1";
      native_value = none;
      native_unit = d.native_unit;
      numerator = none;
      denominator = none;
      sample_count = denominator;
      previous_value = none;
      rolling_median = none;
      rolling_mad = none;
      baseline_sample_count = 0;
      absolute_change_previous = none;
      percentage_change_previous = none;
      absolute_change_rolling = none;
      percentage_change_rolling = none;
      workload_adjusted_residual = none;
      practical_threshold = hundredths d.practical_change;
      coverage = i.coverage;
      status = insufficient;
      status_reason = "comparison_unavailable";
      confidence = "unknown";
      uncertainty = "none";
      exclusions = d.exclusions ++ i.exclusions;
      evidence_refs = i.evidence_refs;
    }

    -- `ratio` once its definition is found.
    unfoldable pub ratio_of : Definition → F → ℤ → Input → MetricResult
    ratio_of d numerator denominator i =
        let result = empty_result d denominator i in
        if not (is_complete i.coverage)
        then record result { uncertainty = "coverage_incomplete" }
        else if str_eq d.name "active_runtime_per_turn" && not i.active_runtime_known
        then record result { uncertainty = "active_runtime_unavailable" }
        else if int_lt denominator (pos d.minimum_sample)
        then record result { uncertainty = "minimum_sample_not_met" }
        else record result {
          native_value = some (div numerator (of_int denominator));
          numerator = some numerator;
          denominator = some (of_int denominator);
          status = flat;
        }

    unfoldable pub ratio : String → F → ℤ → Input → Option MetricResult
    unfolding ratio_of
    ratio name numerator denominator i =
        Option.map (λ d. ratio_of d numerator denominator i) (definition name)

    abbrev pub hundredfold : MetricResult → MetricResult
    hundredfold r = record r {
      native_value = Option.map (λ v. mul v (of_int (pos 100))) r.native_value;
    }

    unfoldable pub per_hundred : String → ℤ → ℤ → Input → Option MetricResult
    unfolding ratio_of ratio
    per_hundred name numerator denominator i =
        Option.map hundredfold (ratio name (of_int numerator) denominator i)

    -- The calls of `ratio` and `perHundred` that `Compute` makes, in its order.
    unfoldable pub measurements : Input → List (Option MetricResult)
    unfolding ratio_of ratio per_hundred
    measurements i =
        ratio "scope_attribution_coverage" (of_int i.attributed_turns) i.completed_turns i
        ∷ ratio "boundary_violation_rate" (of_int i.boundary_violations) i.boundary_decisions i
        ∷ ratio "checkpoint_completeness" (of_int i.complete_checkpoints) i.checkpoints i
        ∷ ratio "tokens_per_turn" i.total_tokens i.completed_turns i
        ∷ ratio "non_cached_input_per_turn" i.non_cached_input_tokens i.completed_turns i
        ∷ per_hundred "passive_waits_per_100_tool_calls" i.passive_wait_calls i.tool_calls i
        ∷ per_hundred "oversized_outputs_per_100_tool_results" i.oversized_results i.tool_results i
        ∷ per_hundred "repeated_calls_per_100_tool_calls" i.repeated_calls i.tool_calls i
        ∷ ratio "tool_error_rate" (of_int i.tool_errors) i.tool_calls i
        ∷ ratio "validation_presence" (of_int i.validated_mutations) i.observable_mutations i
        ∷ ratio "privacy_redaction_coverage" (of_int i.redacted_evidence) i.accepted_evidence i
        ∷ ratio "commentary_per_turn" (of_int i.commentary_messages) i.completed_turns i
        ∷ ratio "wall_clock_runtime_per_turn" i.wall_clock_seconds i.completed_turns i
        ∷ ratio "active_runtime_per_turn" i.active_seconds i.completed_turns i
        ∷ []

    unfoldable pub compute : Input → Result Failure (List MetricResult)
    unfolding invalid_counts invalid_measurements measurements answer
    compute i =
        if invalid_counts i || invalid_measurements i
        then err inconsistent
        else answer (every (measurements i))
