-- ===== src/Metrics/Table.antt =====
-- The table of definitions: `registry`. The texts for readers are left out.
use codex_prompt_better.Base.{ℕ, String, if◌then◌else◌, str_eq, List, [], ◌∷◌, Option, none, some}
use codex_prompt_better.Replay.Metric.{Polarity, contextual, lower_better, higher_better, guardrail}

-- `practical_change` is in hundredths, as all of the table are.
pub record Definition : Type 0 where
  pub name : String
  pub display_label : String
  pub native_unit : String
  pub polarity : Polarity
  pub minimum_sample : ℕ
  pub practical_change : ℕ
  pub minimum_persistence : ℕ
  pub exclusions : List String
  pub allowed_diagnoses : List String

abbrev pub new_definition :
    String → String → String → Polarity → ℕ → ℕ → List String → List String → Definition
new_definition name label unit polarity minimum practical exclusions diagnoses = record {
  name = name;
  display_label = label;
  native_unit = unit;
  polarity = polarity;
  minimum_sample = minimum;
  practical_change = practical;
  minimum_persistence = 2;
  exclusions = exclusions;
  allowed_diagnoses = diagnoses;
}

abbrev pub registry : List Definition
registry =
    new_definition "scope_attribution_coverage" "Scope attribution coverage" "ratio" higher_better 1
      2 ("privacy_suppressed_small_cohorts" ∷ []) ("scope_attribution_gap" ∷ [])
    ∷ new_definition "boundary_violation_rate" "Boundary violation rate" "ratio" lower_better 1 1
        ("unknown_boundary_outcome" ∷ []) ("boundary_violation" ∷ [])
    ∷ new_definition "checkpoint_completeness" "Checkpoint completeness" "ratio" higher_better 1 5
        ("read_only_sessions_without_checkpoint_requirement" ∷ []) ("checkpoint_gap" ∷ [])
    ∷ new_definition "tokens_per_turn" "Tokens per turn" "tokens/turn" contextual 1 5
        ("incomplete_turns" ∷ []) []
    ∷ new_definition "non_cached_input_per_turn" "Non-cached input per turn" "tokens/turn"
        lower_better 1 5 ("unknown_cache_accounting" ∷ []) ("cache_churn" ∷ "context_growth" ∷ [])
    ∷ new_definition "passive_waits_per_100_tool_calls" "Passive waits per 100 tool calls"
        "calls/100_tool_calls" lower_better 5 10
        ("required_external_waits" ∷ "user_requested_cadence" ∷ []) ("passive_polling" ∷ [])
    ∷ new_definition "oversized_outputs_per_100_tool_results"
        "Oversized outputs per 100 tool results" "results/100_tool_results" lower_better 5 10
        ("binary_media" ∷ "necessary_complete_output" ∷ []) ("oversized_output" ∷ [])
    ∷ new_definition "repeated_calls_per_100_tool_calls" "Repeated calls per 100 tool calls"
        "calls/100_tool_calls" lower_better 5 10
        ("state_changed" ∷ "retry_after_changed_arguments" ∷ "final_gate_validation" ∷ [])
        ("repeated_unchanged_call" ∷ [])
    ∷ new_definition "commentary_per_turn" "Commentary per turn" "messages/turn" contextual 1 10 []
        []
    ∷ new_definition "wall_clock_runtime_per_turn" "Wall-clock runtime per turn" "seconds/turn"
        contextual 1 10 ("incomplete_turns" ∷ []) []
    ∷ new_definition "active_runtime_per_turn" "Active runtime per turn" "seconds/turn" contextual 1
        10 ("external_blocking" ∷ "approval_wait" ∷ "user_wait" ∷ []) []
    ∷ new_definition "tool_error_rate" "Tool error rate" "ratio" guardrail 5 2 []
        ("tool_reliability" ∷ [])
    ∷ new_definition "validation_presence" "Required validation presence" "ratio" guardrail 1 1 []
        ("missing_validation" ∷ [])
    ∷ new_definition "privacy_redaction_coverage" "Privacy redaction coverage" "ratio" guardrail 1 1
        [] ("privacy_gap" ∷ [])
    ∷ []

-- `definition`; `none` is its panic on a name that the table has not.
abbrev lookup : String → List Definition → Option Definition
lookup name [] = none
lookup name (d ∷ ds) = if str_eq d.name name then some d else lookup name ds

abbrev pub definition : String → Option Definition
definition name = lookup name registry
