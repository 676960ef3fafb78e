-- ===== src/Prompt/Compiler.antt =====
-- internal/compiler/compiler.go: `Improve`, `ImproveWithPhase` and `CreateGoal`; `CreateReviewFix` is
-- left out. A context is whether it is done when it is asked; positions in a text count runes.
use Prim.Native.String.{len, count, [] as empty, ◌∷◌ as ◌◂◌, ◌++◌ as append}
use codex_prompt_better.Base.{
  ℕ, suc, ◌+◌, String, Bool, true, false, not, ◌&&◌, ◌||◌, if◌then◌else◌, str_eq, ltb, leb, length,
  List, [], ◌∷◌, Option, none, some, Result, ok, err, ◌>>=◌, ◌>>◌, require,
}
use codex_prompt_better.Base.Integers.{ℤ, pos, int_lt}
use codex_prompt_better.Base.Patterns.{
  Unicode, has_prefix, trim_left, trim_right, trim_space, drop_chars,
}
use codex_prompt_better.Contracts.{
  Error, new_error, semantic_invalid, budget_exhausted, ExecutionPolicy, PolicyOutcome,
}
use codex_prompt_better.Policy.{
  HostPermission, Phase, research, design, implementation, review, external_coordination,
  other_phase, valid_execution_policy, resolve,
}
use codex_prompt_better.Prompt.Lines.{normalize}
use codex_prompt_better.Prompt.Plan.{
  PromptPlan, invalid, one_of, valid_phase, default_plan, validate_plan, render_plan,
}

pub record ExecutionBudget : Type 0 where
  pub schema_version : String
  pub enforcement : String
  pub max_useful_tool_loops : Option ℤ
  pub max_retries : Option ℤ
  pub max_retrieval_expansions : Option ℤ
  pub active_phases : List String
  pub delegation_policy : String
  pub max_agent_depth : Option ℤ
  pub max_concurrency : Option ℤ
  pub context_mode : String
  pub exhaustion_outcome : String

pub record ImproveRequest : Type 0 where
  pub schema_version : String
  pub kind : String
  pub intent : String
  pub execution_policy : ExecutionPolicy
  pub prompt_plan : Option PromptPlan
  pub budget : Option ExecutionBudget

pub record ImproveResult : Type 0 where
  pub improved_prompt : String
  pub policy_outcome : PolicyOutcome

pub record GoalRequest : Type 0 where
  pub schema_version : String
  pub kind : String
  pub objective : String
  pub prompt_plan : PromptPlan

abbrev pub phase_named : String → Phase
phase_named value =
    if str_eq value "research"
    then research
    else if str_eq value "design"
    then design
    else if str_eq value "implementation"
    then implementation
    else if str_eq value "review"
    then review
    else if str_eq value "external_coordination"
    then external_coordination
    else other_phase value

abbrev pub too_long : String → String → Error
too_long message field = new_error semantic_invalid message field false

abbrev pub check_context : Bool → Result Error (Unit {0})
check_context done =
    require (not done)
      (new_error budget_exhausted "operation cancelled or timed out" "context" true)

abbrev pub int_within : Option ℤ → ℕ → ℕ → Bool
int_within none low high = true
int_within (some value) low high = not (int_lt value (pos low)) && not (int_lt (pos high) value)

abbrev pub is_set : Option ℤ → Bool
is_set none = false
is_set (some value) = true

unfoldable pub distinct_phases : List String → List String → Bool
distinct_phases seen [] = true
distinct_phases seen (p ∷ ps) =
    let rest = distinct_phases (p ∷ seen) ps in
    if not (valid_phase p) || one_of p seen then false else rest

unfoldable pub validate_budget : ExecutionBudget → Result Error (Unit {0})
unfolding distinct_phases
validate_budget b =
    require (str_eq b.schema_version "1.0.0")
      (invalid "execution budget must use schema 1.0.0" "budget.schema_version")
    >> require (one_of b.enforcement ("host_enforced" ∷ "advisory" ∷ "unknown" ∷ []))
        (invalid "invalid budget enforcement" "budget.enforcement")
    >> require (ltb 0 (length b.active_phases))
        (invalid "active phases are required" "budget.active_phases")
    >> require (distinct_phases [] b.active_phases)
        (invalid "invalid or duplicate active phase" "budget.active_phases")
    >> require (one_of b.delegation_policy ("none" ∷ "user_requested_only" ∷ "bounded" ∷ []))
        (invalid "invalid delegation policy" "budget.delegation_policy")
    >> require
        (one_of b.exhaustion_outcome ("stop" ∷ "fallback" ∷ "abstain" ∷ "approval_required" ∷ []))
        (invalid "invalid exhaustion outcome" "budget.exhaustion_outcome")
    >> require
        (str_eq b.context_mode ""
          || one_of b.context_mode ("none" ∷ "minimal" ∷ "selected" ∷ "full" ∷ "unknown" ∷ []))
        (invalid "invalid context mode" "budget.context_mode")
    >> require
        (int_within b.max_useful_tool_loops 0 1000
          && int_within b.max_retries 0 100
          && int_within b.max_retrieval_expansions 0 100
          && int_within b.max_agent_depth 0 16
          && int_within b.max_concurrency 1 64)
        (invalid "budget value out of range" "budget")
    >> require
        (not (str_eq b.delegation_policy "bounded")
          || is_set b.max_agent_depth && is_set b.max_concurrency)
        (invalid "bounded delegation requires depth and concurrency" "budget.delegation_policy")
    >> require
        (str_eq b.delegation_policy "bounded"
          || not (is_set b.max_agent_depth) && not (is_set b.max_concurrency))
        (invalid "unbounded fields forbidden for this delegation policy" "budget.delegation_policy")

-- `strings.Index`; `none` is -1.
unfoldable pub index_of : ℕ → String → String → Option ℕ
index_of n empty t = if str_eq t "" then some n else none
index_of n (c ◂ s) t =
    let rest = index_of (suc n) s t in if has_prefix (c ◂ s) t then some n else rest

-- The text before the first occurrence of another one.
unfoldable pub before : String → String → String
before t empty = empty
before t (c ◂ s) = let rest = c ◂ before t s in if has_prefix (c ◂ s) t then empty else rest

unfoldable pub section_index : String → String → Option ℕ
unfolding index_of
section_index value title =
    let heading = append title ":\n" in
    if has_prefix value heading
    then some 0
    else elim (index_of 0 value (append "\n\n" heading)) [ none ↦ none | some i ↦ some (i + 2) ]

-- The loop of `looksCompiled`; `low` is one more than `previous`.
unfoldable pub in_order : String → ℕ → List String → Bool
unfolding section_index
in_order value low [] = true
in_order value low (title ∷ titles) = elim (section_index value title) [
  | none ↦ false
  | some i ↦ leb low i && in_order value (i + 1) titles
]

unfoldable pub looks_compiled : String → Bool
unfolding in_order
looks_compiled value = in_order value 0 (
    "Goal" ∷ "Success criteria" ∷ "Constraints" ∷ "Decision rules" ∷ "Evidence" ∷ "Tools"
    ∷ "Approval boundary" ∷ "Phase" ∷ "Validation" ∷ "Output" ∷ "Stop" ∷ "Fallback" ∷ "Abstain"
    ∷ [])

-- Behind the rendering, lines 71 to 81.
unfoldable pub deliver :
    ImproveRequest → HostPermission → String → Phase → Result Error ImproveResult
unfolding resolve
deliver r host compiled phase =
    if ltb 16000 (len compiled)
    then err (too_long "compiled prompt exceeds 16000 bytes" "improved_prompt")
    else resolve r.execution_policy phase host >>= λ outcome.
        ok (record { improved_prompt = compiled; policy_outcome = outcome })

module _ (unicode : Unicode) (is_valid : String → Bool) where
  unfoldable pub section_value : String → String → String
  unfolding section_index drop_chars before trim_left trim_right
  section_value value title = elim (section_index value title) [
    | none ↦ ""
    | some start ↦ trim_space unicode (before "\n\n" (drop_chars (start + count title + 2) value))
  ]

  unfoldable pub plan_of : Option PromptPlan → String → Result Error PromptPlan
  unfolding default_plan validate_plan
  plan_of none intent = ok (default_plan intent)
  plan_of (some plan) intent = validate_plan unicode is_valid plan >> ok plan

  abbrev check_budget : Option ExecutionBudget → Result Error (Unit {0})
  unfolding validate_budget
  check_budget none = ok tt
  check_budget (some budget) = validate_budget budget

  unfoldable pub prepare_improve_request : ImproveRequest → Result Error (String × PromptPlan)
  unfolding plan_of check_budget normalize valid_execution_policy
  prepare_improve_request r =
      require (str_eq r.schema_version "1.0.0" && str_eq r.kind "request")
        (invalid "request must use schema 1.0.0 and kind request" "request")
      >> require (valid_execution_policy r.execution_policy)
          (invalid "invalid execution policy" "execution_policy")
      >> require (leb (len r.intent) 8000) (invalid "intent exceeds 8000 bytes" "intent")
      >> (normalize unicode is_valid r.intent >>= λ intent.
          plan_of r.prompt_plan intent >>= λ plan. check_budget r.budget >> ok (intent, plan))

  -- The phase of an intent that is kept as it is; the empty text where it is rendered anew.
  unfoldable pub kept_phase : Option PromptPlan → String → String → String
  unfolding looks_compiled section_value
  kept_phase (some plan) phase_override intent = ""
  kept_phase none phase_override intent =
      let phase = section_value intent "Phase" in
      if str_eq phase_override "" && looks_compiled intent && valid_phase phase then phase else ""

  -- `plan.PhaseScope = phaseOverride`
  abbrev pub with_override : String → PromptPlan → PromptPlan
  with_override phase_override plan =
      if str_eq phase_override "" then plan else record plan { phase_scope = phase_override }

  -- The prompt and its phase.
  unfoldable pub compiled_of : Option PromptPlan → String → String → PromptPlan → String × String
  unfolding kept_phase render_plan
  compiled_of given phase_override intent plan =
      let phase = kept_phase given phase_override intent in
      let chosen = with_override phase_override plan in
      if str_eq phase ""
      then (render_plan unicode is_valid chosen true, chosen.phase_scope)
      else (intent, phase)

  -- Behind the preparation, lines 55 to 81.
  unfoldable pub compile :
      ImproveRequest → HostPermission → String → String → PromptPlan → Result Error ImproveResult
  unfolding compiled_of deliver
  compile r host phase_override intent plan =
      let compiled = compiled_of r.prompt_plan phase_override intent plan in
      deliver r host compiled.0 (phase_named compiled.1)

  -- `improve`; `done` is the context's state at the two checks.
  unfoldable pub improve :
      Bool × Bool → ImproveRequest → HostPermission → String → Result Error ImproveResult
  unfolding prepare_improve_request compile
  improve done r host phase_override =
      check_context done.0
      >> (prepare_improve_request r >>= λ prepared.
          check_context done.1 >> compile r host phase_override prepared.0 prepared.1)

  unfoldable pub improve_with_phase :
      Bool × Bool → ImproveRequest → HostPermission → String → Result Error ImproveResult
  unfolding improve
  improve_with_phase done r host phase =
      require (valid_phase phase) (invalid "invalid phase scope" "phase")
      >> improve done r host phase

  unfoldable pub create_goal : Bool → GoalRequest → Result Error String
  unfolding normalize validate_plan render_plan
  create_goal done r =
      check_context done
      >> require (str_eq r.schema_version "1.0.0" && str_eq r.kind "request")
          (invalid "request must use schema 1.0.0 and kind request" "request")
      >> require (leb (len r.objective) 4000) (invalid "objective exceeds 4000 bytes" "objective")
      >> (normalize unicode is_valid r.objective >>= λ objective.
          validate_plan unicode is_valid r.prompt_plan
          >> (let body = render_plan unicode is_valid r.prompt_plan false in
              let prompt =
                append "Take this as a new goal:\n\n"
                  (append objective (if str_eq body "" then "" else append "\n\n" body)) in
              require (leb (len prompt) 16000)
                (invalid "goal request or result exceeds contract limit" "objective")
              >> ok prompt))
