-- ===== src/Boundary/Decision.antt =====
-- internal/boundary/decision.go: the outcome and the risk of one proposed action.
pub mod Laws
use codex_prompt_better.Base.{
  ℕ, ◌+◌, String, Bool, true, false, not, ◌&&◌, ◌||◌, if◌then◌else◌, Option, none, some, ltb, leb,
  Result, ok, err,
}
use codex_prompt_better.Contracts.{
  ExecutionPolicy, PolicyOutcome, return_only, approval_required, execution_recommended, denied,
  Error, new_error, invalid_schema,
}
use codex_prompt_better.Policy.{
  HostPermission, valid_execution_policy, valid_host_permission, is_ask, is_follow, is_denied,
  is_permitted,
}

pub data ActionClass : Type 0 where
  read_only local_reversible local_mutation external_write : ActionClass
  costly permission_sensitive scope_expanding destructive : ActionClass
  other_action : String → ActionClass

pub data Outcome : Type 0 where
  continue warn clarify block : Outcome

pub data RiskLevel : Type 0 where
  low medium high critical : RiskLevel

pub data DelegationPolicy : Type 0 where
  no_delegation user_requested_only bounded : DelegationPolicy
  other_delegation : String → DelegationPolicy

pub record DecisionInput : Type 0 where
  pub action : ActionClass
  pub execution_policy : ExecutionPolicy
  pub delegation_policy : DelegationPolicy
  pub host_permission : HostPermission
  pub capability_known : Bool
  pub explicit_intent : Bool
  pub in_scope : Bool
  pub ambiguous : Bool
  pub conflicted : Bool
  pub unsafe_link : Bool
  pub sensitive : Bool
  pub unbounded : Bool

pub record Decision : Type 0 where
  pub outcome : Outcome
  pub risk : ℕ
  pub risk_level : RiskLevel
  pub policy_outcome : PolicyOutcome

-- The map `actionRisk`; `none` is a missing key.
unfoldable pub action_risk : ActionClass → Option ℕ
action_risk read_only = some 10
action_risk local_reversible = some 25
action_risk local_mutation = some 40
action_risk external_write = some 60
action_risk costly = some 70
action_risk permission_sensitive = some 75
action_risk scope_expanding = some 80
action_risk destructive = some 90
action_risk (other_action _) = none

unfoldable pub valid_delegation : DelegationPolicy → Bool
valid_delegation (other_delegation _) = false
valid_delegation _ = true

unfoldable pub requires_approval : ActionClass → Bool
requires_approval external_write = true
requires_approval costly = true
requires_approval destructive = true
requires_approval scope_expanding = true
requires_approval _ = false

unfoldable pub risk_level : ℕ → RiskLevel
risk_level risk =
    if ltb risk 25
    then low
    else if ltb risk 50
    then medium
    else if ltb risk 75
    then high
    else critical

abbrev pub is_read_only : ActionClass → Bool
is_read_only read_only = true
is_read_only _ = false

-- The three adjustments of the base risk, and the cap.
unfoldable pub adjusted_risk : ℕ → Bool → Bool → ℕ
adjusted_risk base ambiguous conflicted =
    let with_ambiguity = if ambiguous then base + 10 else base in
    let risk = if conflicted then with_ambiguity + 20 else with_ambiguity in
    if ltb 100 risk then 100 else risk

-- The `switch` of `Decide`, its cases in order.
unfoldable pub choose_outcome : DecisionInput → ℕ → Outcome
unfolding requires_approval
choose_outcome input risk =
    if is_denied host_permission || unsafe_link || sensitive || unbounded
    then block
    else if conflicted && leb 50 risk
    then block
    else if not in_scope
    then block
    else if requires_approval action
    then clarify
    else if not capability_known && not (is_read_only action)
    then clarify
    else if ambiguous && leb 25 risk
    then clarify
    else if ambiguous
    then warn
    else if is_ask execution_policy && not (is_read_only action)
    then clarify
    else if is_follow execution_policy
        && (not explicit_intent || not (is_permitted host_permission))
    then clarify
    else continue
  where
    open input use {
      host_permission, unsafe_link, sensitive, unbounded, conflicted, in_scope, action,
      capability_known, ambiguous, execution_policy, explicit_intent,
    }

unfoldable pub map_outcome : Outcome → DecisionInput → PolicyOutcome
map_outcome block input = denied
map_outcome clarify input = approval_required
map_outcome _ input =
    if is_follow input.execution_policy
      && input.explicit_intent
      && input.in_scope
      && is_permitted input.host_permission
    then execution_recommended
    else return_only

decide_known : DecisionInput → ℕ → Decision
unfolding adjusted_risk choose_outcome map_outcome risk_level
decide_known input base =
    let risk = adjusted_risk base input.ambiguous input.conflicted in
    let outcome = choose_outcome input risk in
    record {
      outcome = outcome;
      risk = risk;
      risk_level = risk_level risk;
      policy_outcome = map_outcome outcome input;
    }

valid_fields : DecisionInput → Bool
unfolding valid_execution_policy valid_host_permission valid_delegation
valid_fields input =
    valid_execution_policy input.execution_policy
    && valid_host_permission input.host_permission
    && valid_delegation input.delegation_policy

unfoldable pub decide : DecisionInput → Result Error Decision
unfolding action_risk decide_known valid_fields
decide input =
    let invalid =
      err (new_error invalid_schema "invalid boundary decision input" "boundary" false) in
    elim (action_risk input.action) [
      | none ↦ invalid
      | some base ↦ if valid_fields input then ok (decide_known input base) else invalid
    ]
