-- ===== src/Tests/Boundary.antt =====
-- Decisions, policies and counters on concrete inputs.
use codex_prompt_better.Base.{ℕ, ◌+◌, ◌≤◌, ◌<◌, ◌≡◌, ◌↔◌, ◌⊎◌, refl, true, false, ok, none, arith}
use codex_prompt_better.Contracts.{
  follow_user_intent, execution_recommended, approval_required, denied,
}
use codex_prompt_better.Policy.{host_permitted, implementation, resolve}
use codex_prompt_better.Policy.Laws.{resolve_recommends_iff}
use codex_prompt_better.Boundary.Decision.{
  local_mutation, bounded, continue, clarify, block, medium, high, DecisionInput, Decision, decide,
}
use codex_prompt_better.Boundary.Decision.Laws.{decide_blocks_iff, with_hazards, blocked_by_input}
use codex_prompt_better.Tokens.{Observation, derive, derived, wrap, reset, u64_mod}
use codex_prompt_better.Tokens.Laws.{derive_accounts}

resolve_recommends_iff_example :
    (resolve follow_user_intent implementation host_permitted ≡ ok execution_recommended) ↔ (
      (implementation ≡ implementation)
      × (follow_user_intent ≡ follow_user_intent)
      × (host_permitted ≡ host_permitted))
resolve_recommends_iff_example =
    resolve_recommends_iff follow_user_intent implementation host_permitted

-- A mutation that the user asked for and the host permits.
abbrev pub an_edit : DecisionInput
an_edit = record {
  action = local_mutation;
  execution_policy = follow_user_intent;
  delegation_policy = bounded;
  host_permission = host_permitted;
  capability_known = true;
  explicit_intent = true;
  in_scope = true;
  ambiguous = false;
  conflicted = false;
  unsafe_link = false;
  sensitive = false;
  unbounded = false;
}

abbrev pub an_edit_decision : Decision
an_edit_decision = record {
  outcome = continue;
  risk = 40;
  risk_level = medium;
  policy_outcome = execution_recommended;
}

an_edit_decided : decide an_edit ≡ ok an_edit_decision
unfolding decide
an_edit_decided = refl

-- The same, ambiguous.
abbrev pub a_doubt_decision : Decision
a_doubt_decision = record {
  outcome = clarify;
  risk = 50;
  risk_level = high;
  policy_outcome = approval_required;
}

a_doubt_decided : decide (with_hazards an_edit true false false false false) ≡ ok a_doubt_decision
unfolding decide
a_doubt_decided = refl

decide_blocks_iff_example :
    ((continue ≡ block)
      ↔ ((blocked_by_input an_edit ≡ true) ⊎ ((an_edit.conflicted ≡ true) × (50 ≤ 40))))
    × ((execution_recommended ≡ denied) ↔ (continue ≡ block))
decide_blocks_iff_example = decide_blocks_iff an_edit an_edit_decided

abbrev pub reading : ℕ → ℕ → Observation
reading value sequence = record {
  counter_type = "input";
  unit = "token";
  value = value;
  sequence = sequence;
  source = "codex";
}

derive_accounts_example :
    ((derive (reading 250 1) (reading 4 2) 255).1 ≡ none)
    × ((derive (reading 250 1) (reading 4 2) 255).0.value < u64_mod)
    × ((derive (reading 250 1) (reading 4 2) 255).0.state ≡ derived
        → 250 + (derive (reading 250 1) (reading 4 2) 255).0.value ≡ 4)
    × ((derive (reading 250 1) (reading 4 2) 255).0.state ≡ wrap
        → (250 + (derive (reading 250 1) (reading 4 2) 255).0.value ≡ 4 + (255 + 1)) × (250 ≤ 255))
    × ((derive (reading 250 1) (reading 4 2) 255).0.state ≡ reset
        → ((derive (reading 250 1) (reading 4 2) 255).0.value ≡ 0) × (4 < 250))
    × (((derive (reading 250 1) (reading 4 2) 255).0.state ≡ derived) ↔ (250 ≤ 4))
derive_accounts_example =
    derive_accounts (reading 250 1) (reading 4 2) 255 (omega arith) refl (omega arith) (omega arith)
