-- ===== src/Policypack/Tables.antt =====
-- The tables at the end of the file.
use codex_prompt_better.Base.{String, List, [], ◌∷◌, Bool, str_eq, some_of, if◌then◌else◌, ◌||◌}

abbrev pub contains : List String → String → Bool
contains values wanted = some_of (λ value. str_eq value wanted) values

abbrev pub categories : List String
categories =
    "repository" ∷ "worktree" ∷ "instruction" ∷ "scope" ∷ "non_goal" ∷ "generated" ∷ "vendor"
    ∷ "validation" ∷ "release" ∷ "privacy" ∷ "security" ∷ "tool_routing" ∷ "retrieval" ∷ "ptc"
    ∷ "autonomy" ∷ "fallback" ∷ "stopping" ∷ "delegation" ∷ []

abbrev pub outcomes : List String
outcomes = "continue" ∷ "warn" ∷ "clarify" ∷ "block" ∷ []

abbrev pub fields : List String
fields =
    "category" ∷ "action_class" ∷ "phase" ∷ "source_kind" ∷ "capability_state" ∷ "delegation_policy"
    ∷ "ambiguous" ∷ "conflicted" ∷ []

abbrev pub operators : List String
operators = "equals" ∷ "not_equals" ∷ "prefix" ∷ "present" ∷ []

-- The map of the values; an absent key has none.
unfoldable pub condition_values : String → List String
condition_values field =
    if str_eq field "category"
    then categories
    else if str_eq field "action_class"
    then "read_only" ∷ "local_reversible" ∷ "local_mutation" ∷ "external_write" ∷ "costly"
      ∷ "permission_sensitive" ∷ "scope_expanding" ∷ "destructive" ∷ []
    else if str_eq field "phase"
    then "research" ∷ "design" ∷ "implementation" ∷ "review" ∷ "external_coordination" ∷ []
    else if str_eq field "source_kind"
    then "host_permission" ∷ "configuration" ∷ "instruction" ∷ "user_request"
      ∷ "repository_metadata" ∷ "derived_default" ∷ []
    else if str_eq field "capability_state"
    then "supported" ∷ "unsupported" ∷ "unknown" ∷ []
    else if str_eq field "delegation_policy"
    then "none" ∷ "user_requested_only" ∷ "bounded" ∷ []
    else if str_eq field "ambiguous" || str_eq field "conflicted"
    then "true" ∷ "false" ∷ []
    else []
