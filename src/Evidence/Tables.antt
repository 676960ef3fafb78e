-- ===== src/Evidence/Tables.antt =====
-- The attributes that a kind of source may have: `allowedAttributes`.
use codex_prompt_better.Base.{String, Bool, if◌then◌else◌, str_eq, List, [], ◌∷◌, some_of}

abbrev pub configuration_attributes : List String
configuration_attributes =
    "execution_policy" ∷ "host_permission" ∷ "max_input_bytes" ∷ "timeout" ∷ "format"
    ∷ "activity_class" ∷ "policy_schema_version" ∷ "policy_hash" ∷ "raw_prompt_retention"
    ∷ "telemetry" ∷ []

abbrev pub git_attributes : List String
git_attributes =
    "repository_alias" ∷ "worktree_alias" ∷ "branch_alias" ∷ "head_alias" ∷ "activity_class" ∷ []

abbrev pub github_attributes : List String
github_attributes =
    "event_kind" ∷ "state" ∷ "repository_alias" ∷ "pull_request_alias" ∷ "check_alias"
    ∷ "activity_class" ∷ []

abbrev pub codex_jsonl_attributes : List String
codex_jsonl_attributes =
    "session_alias" ∷ "trajectory_alias" ∷ "task_alias" ∷ "task_attribution_state" ∷ "turn_alias"
    ∷ "turn_ordinal" ∷ "phase" ∷ "phase_event" ∷ "response_lineage" ∷ "parent_response_alias"
    ∷ "response_event" ∷ "tool_call_alias" ∷ "caller_alias" ∷ "tool_kind" ∷ "call_path"
    ∷ "tool_outcome" ∷ "result_state" ∷ "canonical_call" ∷ "state_epoch" ∷ "mutation_state"
    ∷ "output_modality" ∷ "output_size_bytes" ∷ "wait_state" ∷ "model_variant" ∷ "reasoning_effort"
    ∷ "reasoning_mode" ∷ "effective_context" ∷ "verbosity" ∷ "service_mode" ∷ "cache_mode"
    ∷ "cache_ttl" ∷ "usage_kind" ∷ "usage_value" ∷ "usage_unit" ∷ "accounting_regime" ∷ "cache_kind"
    ∷ "cache_value" ∷ "image_detail" ∷ "safeguard_outcome" ∷ "safety_identifier_presence"
    ∷ "checkpoint_event" ∷ "boundary_event" ∷ "delegation_event" ∷ "stop_event" ∷ "compaction_event"
    ∷ "activity_class" ∷ "plan_hash" ∷ "plan_phase_scope" ∷ "approval_boundary_class"
    ∷ "budget_enforcement" ∷ "budget_max_tool_loops" ∷ "budget_max_retries"
    ∷ "budget_max_retrieval_expansions" ∷ "budget_delegation_policy" ∷ "budget_max_agent_depth"
    ∷ "budget_max_concurrency" ∷ "budget_context_mode" ∷ "budget_exhaustion_outcome"
    ∷ "policy_schema_version" ∷ "policy_hash" ∷ "raw_prompt_retention" ∷ "telemetry" ∷ "host_kind"
    ∷ "host_version" ∷ "host_capability_name" ∷ "host_capability_state"
    ∷ "project_attribution_confidence" ∷ "project_attribution_valid_to" ∷ []

abbrev pub codex_state_sqlite_attributes : List String
codex_state_sqlite_attributes =
    "thread_alias" ∷ "trajectory_alias" ∷ "state" ∷ "model_variant" ∷ "reasoning_effort"
    ∷ "activity_class" ∷ []

abbrev pub rollout_summary_attributes : List String
rollout_summary_attributes =
    "session_alias" ∷ "trajectory_alias" ∷ "compaction_state" ∷ "delegation_parent"
    ∷ "delegation_depth" ∷ "context_mode" ∷ "activity_class" ∷ []

abbrev pub process_attributes : List String
process_attributes = "purpose" ∷ "state" ∷ "activity_class" ∷ []

-- An unknown kind has none.
unfoldable pub allowed_attributes : String → List String
allowed_attributes kind =
    if str_eq kind "configuration"
    then configuration_attributes
    else if str_eq kind "git"
    then git_attributes
    else if str_eq kind "github"
    then github_attributes
    else if str_eq kind "codex_jsonl"
    then codex_jsonl_attributes
    else if str_eq kind "codex_state_sqlite"
    then codex_state_sqlite_attributes
    else if str_eq kind "rollout_summary"
    then rollout_summary_attributes
    else if str_eq kind "process"
    then process_attributes
    else []

abbrev pub allowed : String → String → Bool
allowed kind field = some_of (λ name. str_eq name field) (allowed_attributes kind)
