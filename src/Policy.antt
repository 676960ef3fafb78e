-- ===== src/Policy.antt =====
-- internal/policy/policy.go: the outcome of a policy for a phase under a host permission.
pub mod Laws
use codex_prompt_better.Base.{
  String, Bool, true, false, not, ◌&&◌, ◌||◌, if◌then◌else◌, str_eq, Result, ok, err,
}
use codex_prompt_better.Contracts.{
  ExecutionPolicy, improve_only, ask_before_execute, follow_user_intent, PolicyOutcome, return_only,
  approval_required, execution_recommended, denied, Error, new_error, invalid_schema, internal,
}

-- The zero value and any other text are `other_permission`.
pub data HostPermission : Type 0 where
  host_permitted host_denied host_unknown : HostPermission
  other_permission : String → HostPermission

pub data Phase : Type 0 where
  research design implementation review external_coordination : Phase
  other_phase : String → Phase

unfoldable pub valid_execution_policy : ExecutionPolicy → Bool
valid_execution_policy (ExecutionPolicy.other_policy _) = false
valid_execution_policy _ = true

unfoldable pub valid_host_permission : HostPermission → Bool
valid_host_permission (other_permission _) = false
valid_host_permission _ = true

unfoldable pub valid_phase : Phase → Bool
valid_phase (other_phase _) = false
valid_phase _ = true

-- The comparisons of the code with one constant.
abbrev pub is_implementation : Phase → Bool
is_implementation implementation = true
is_implementation _ = false

abbrev pub is_external : Phase → Bool
is_external external_coordination = true
is_external _ = false

abbrev pub is_improve_only : ExecutionPolicy → Bool
is_improve_only improve_only = true
is_improve_only _ = false

abbrev pub is_ask : ExecutionPolicy → Bool
is_ask ask_before_execute = true
is_ask _ = false

abbrev pub is_follow : ExecutionPolicy → Bool
is_follow follow_user_intent = true
is_follow _ = false

abbrev pub is_denied : HostPermission → Bool
is_denied host_denied = true
is_denied _ = false

abbrev pub is_unknown : HostPermission → Bool
is_unknown host_unknown = true
is_unknown _ = false

abbrev pub is_permitted : HostPermission → Bool
is_permitted host_permitted = true
is_permitted _ = false

unfoldable pub resolve : ExecutionPolicy → Phase → HostPermission → Result Error PolicyOutcome
unfolding valid_execution_policy valid_host_permission valid_phase
resolve execution_policy phase host =
    if not (valid_execution_policy execution_policy)
    then err (new_error invalid_schema "unknown execution policy" "execution_policy" false)
    else if not (valid_host_permission host)
    then err (new_error invalid_schema "unknown host permission" "host_permission" false)
    else if not (valid_phase phase)
    then err (new_error invalid_schema "unknown phase" "phase" false)
    else if not (is_implementation phase || is_external phase) || is_improve_only execution_policy
    then ok return_only
    else if is_denied host
    then ok denied
    else if is_external phase
    then ok approval_required
    else if is_unknown host || is_ask execution_policy
    then ok approval_required
    else if is_follow execution_policy && is_permitted host
    then ok execution_recommended
    else err (new_error internal "policy resolution failed" "execution_policy" false)
