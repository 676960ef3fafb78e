-- ===== src/Prompt/Plan.antt =====
-- The plan of a prompt in internal/compiler/compiler.go: its checks, its default and its rendering.
use Prim.Native.String.{len, ◌++◌ as append}
use codex_prompt_better.Base.{
  ℕ, String, Bool, true, false, not, ◌&&◌, ◌||◌, if◌then◌else◌, str_eq, ltb, ◌==◌, length, each_of,
  some_of, List, [], ◌∷◌, ◌++◌, Option, none, some, Result, ◌>>◌, require,
}
use codex_prompt_better.Base.Patterns.{Unicode, trim_left, trim_right, trim_space}
use codex_prompt_better.Contracts.{Error, new_error, invalid_schema}
use codex_prompt_better.Prompt.Lines.{is_char}

pub record PromptPlan : Type 0 where
  pub schema_version : String
  pub role : String
  pub personality : String
  pub collaboration_style : String
  pub goal : String
  pub success_criteria : List String
  pub invariants : List String
  pub decision_rules : List String
  pub evidence_requirements : List String
  pub tools : List String
  pub output_contract : String
  pub output_language : String
  pub approval_boundary : String
  pub phase_scope : String
  pub stop_rules : List String
  pub fallback_rules : List String
  pub abstain_rules : List String
  pub validation_bar : List String
  pub artifact_priorities : List String
  pub stable_prefix : Option String
  pub dynamic_tail : Option String
  pub scope : List String
  pub non_goals : List String
  pub gates : List String

abbrev pub invalid : String → String → Error
invalid message field = new_error invalid_schema message field false

abbrev pub one_of : String → List String → Bool
one_of value allowed = some_of (str_eq value) allowed

abbrev pub valid_phase : String → Bool
valid_phase value =
    one_of value
      ("research" ∷ "design" ∷ "implementation" ∷ "review" ∷ "external_coordination" ∷ [])

unfoldable pub default_plan : String → PromptPlan
default_plan intent = record {
  schema_version = "1.0.0";
  role = "";
  personality = "";
  collaboration_style = "";
  goal = intent;
  success_criteria = "Complete the requested outcome without dropping stated requirements." ∷ [];
  invariants =
      "Preserve explicit facts, decisions, caveats, language, safety, privacy, and authorization boundaries."
      ∷ [];
  decision_rules = "Ask only when material ambiguity prevents a safe result." ∷ [];
  evidence_requirements = "Use the evidence required by the request; do not invent support." ∷ [];
  tools = "Use only task-relevant tools within granted permissions." ∷ [];
  output_contract = "Return the requested artifact and material next action.";
  output_language = "";
  approval_boundary =
      "Do not execute, expand scope, or take external action without applicable authorization.";
  phase_scope = "design";
  stop_rules =
      "Stop when the result is validated; if blocked, report the blocker and next safe action."
      ∷ [];
  fallback_rules = "Return the safest useful partial result with missing evidence identified." ∷ [];
  abstain_rules = "Abstain from unsafe, unauthorized, or unsupported claims." ∷ [];
  validation_bar =
      "Check the artifact against the goal, constraints, evidence, and requested format." ∷ [];
  artifact_priorities = [];
  stable_prefix = none;
  dynamic_tail = none;
  scope = [];
  non_goals = [];
  gates = [];
}

module _ (unicode : Unicode) (is_valid : String → Bool) where
  unfoldable pub valid_text : String → ℕ → Bool → Bool
  unfolding trim_left trim_right
  valid_text value limit required =
      if not (is_valid value) || ltb limit (len value)
      then false
      else not required || not (str_eq (trim_space unicode value) "")

  -- Whether `validateList` returns nil.
  unfoldable pub valid_list : List String → Bool → Bool
  unfolding valid_text
  valid_list values required =
      if required && length values == 0 || ltb 50 (length values)
      then false
      else each_of (λ v. valid_text v 1000 true) values

  unfoldable pub require_lists : List (String × List String) → Result Error (Unit {0})
  unfolding valid_list
  require_lists [] = Result.ok tt
  require_lists ((name, values) ∷ fields) =
      require (valid_list values true)
        (invalid (append name " is required") (append "prompt_plan." name))
      >> require_lists fields

  -- A list that is checked only if it is not empty.
  abbrev check_list : List String → String → String → Result Error (Unit {0})
  unfolding valid_list
  check_list values message field =
      require (length values == 0 || valid_list values false) (invalid message field)

  abbrev check_text : String → String → Result Error (Unit {0})
  unfolding valid_text
  check_text value name =
      require (valid_text value 500 false)
        (invalid (append name " exceeds 500 bytes") (append "prompt_plan." name))

  abbrev fits : Option String → Bool
  unfolding valid_text
  fits none = true
  fits (some value) = valid_text value 4000 false

  unfoldable pub validate_plan : PromptPlan → Result Error (Unit {0})
  unfolding require_lists valid_text check_list check_text fits
  validate_plan p =
      require (str_eq p.schema_version "1.0.0")
        (invalid "prompt plan must use schema 1.0.0" "prompt_plan.schema_version")
      >> require (valid_text p.goal 2000 true)
          (invalid "prompt plan goal is required" "prompt_plan.goal")
      >> require_lists (
          ("success_criteria", p.success_criteria)
          ∷ ("invariants", p.invariants)
          ∷ ("decision_rules", p.decision_rules)
          ∷ ("evidence_requirements", p.evidence_requirements)
          ∷ ("tools", p.tools)
          ∷ ("stop_rules", p.stop_rules)
          ∷ ("fallback_rules", p.fallback_rules)
          ∷ ("abstain_rules", p.abstain_rules)
          ∷ ("validation_bar", p.validation_bar)
          ∷ [])
      >> check_list p.artifact_priorities "invalid artifact priorities"
          "prompt_plan.artifact_priorities"
      >> check_list p.scope "invalid scope" "prompt_plan.scope"
      >> check_list p.non_goals "invalid non_goals" "prompt_plan.non_goals"
      >> check_list p.gates "invalid gates" "prompt_plan.gates"
      >> require
          (valid_text p.output_contract 2000 true && valid_text p.approval_boundary 1000 true)
          (invalid "output, approval, and phase contracts are required" "prompt_plan")
      >> require (valid_phase p.phase_scope)
          (invalid "invalid phase scope" "prompt_plan.phase_scope")
      >> check_text p.role "role"
      >> check_text p.personality "personality"
      >> check_text p.collaboration_style "collaboration_style"
      >> require (valid_text p.output_language 80 false)
          (invalid "output language exceeds 80 bytes" "prompt_plan.output_language")
      >> require (fits p.stable_prefix)
          (invalid "stable prefix exceeds 4000 bytes" "prompt_plan.stable_prefix")
      >> require (fits p.dynamic_tail)
          (invalid "dynamic tail exceeds 4000 bytes" "prompt_plan.dynamic_tail")

  abbrev trim : String → String
  unfolding trim_left trim_right
  trim s = trim_space unicode s

  -- The closures `addText` and `addList`: the sections that they append.
  abbrev add_text : String → String → List String
  unfolding trim
  add_text title value =
      if str_eq (trim value) "" then [] else append title (append ":\n" (trim value)) ∷ []

  unfoldable pub list_items : List String → String
  unfolding trim
  list_items [] = ""
  list_items (v ∷ vs) = append "- " (append (trim v) (append "\n" (list_items vs)))

  abbrev add_list : String → List String → List String
  unfolding list_items trim_right
  add_list title [] = []
  add_list title (v ∷ vs) =
      trim_right (λ c. is_char c "\n") (append title (append ":\n" (list_items (v ∷ vs)))) ∷ []

  abbrev add_option : String → Option String → List String
  unfolding add_text
  add_option title none = []
  add_option title (some value) = add_text title value

  -- `strings.Join(sections, "\n\n")`
  unfoldable pub join_sections : List String → String
  join_sections [] = ""
  join_sections (s ∷ []) = s
  join_sections (s ∷ t ∷ ss) = append s (append "\n\n" (join_sections (t ∷ ss)))

  unfoldable pub render_plan : PromptPlan → Bool → String
  unfolding add_text add_list add_option join_sections
  render_plan p include_goal = join_sections (
      add_text "Role" p.role
      ++ add_text "Personality" p.personality
      ++ add_text "Collaboration" p.collaboration_style
      ++ add_option "Stable prefix" p.stable_prefix
      ++ (if include_goal then add_text "Goal" p.goal else [])
      ++ add_list "Success criteria" p.success_criteria
      ++ add_list "Constraints" p.invariants
      ++ add_list "Scope" p.scope
      ++ add_list "Non-goals" p.non_goals
      ++ add_list "Decision rules" p.decision_rules
      ++ add_list "Evidence" p.evidence_requirements
      ++ add_list "Tools" p.tools
      ++ add_text "Approval boundary" p.approval_boundary
      ++ add_text "Phase" p.phase_scope
      ++ add_option "Dynamic context" p.dynamic_tail
      ++ add_list "Validation" p.validation_bar
      ++ add_list "Gates" p.gates
      ++ add_text "Output" p.output_contract
      ++ add_text "Output language" p.output_language
      ++ add_list "Artifact priorities" p.artifact_priorities
      ++ add_list "Stop" p.stop_rules
      ++ add_list "Fallback" p.fallback_rules
      ++ add_list "Abstain" p.abstain_rules)
