-- ===== src/Boundary/Decision/Laws.antt =====
-- What the boundary decision promises.
use codex_prompt_better.Base.{
  ℕ, ◌≤◌, ◌≡◌, ◌↔◌, ◌⊎◌, Bool, true, false, ◌||◌, ok, arith, some, leb, not, ◌&&◌,
}
use codex_prompt_better.Contracts.{execution_recommended, denied}
use codex_prompt_better.Policy.{is_denied, is_follow, is_permitted}
use codex_prompt_better.Boundary.Decision.{
  Outcome, continue, warn, clarify, block, DecisionInput, Decision, decide, choose_outcome,
  adjusted_risk, requires_approval, is_read_only, action_risk, decide_known, map_outcome,
}

-- How much an outcome restrains the action.
abbrev pub severity : Outcome → ℕ
severity continue = 0
severity warn = 1
severity clarify = 2
severity block = 3

-- The input with hazards added to those that it reports.
abbrev pub with_hazards : DecisionInput → Bool → Bool → Bool → Bool → Bool → DecisionInput
with_hazards i ambiguous conflicted unsafe_link sensitive unbounded = record i {
  ambiguous = i.ambiguous || ambiguous;
  conflicted = i.conflicted || conflicted;
  unsafe_link = i.unsafe_link || unsafe_link;
  sensitive = i.sensitive || sensitive;
  unbounded = i.unbounded || unbounded;
}

-- What `choose_outcome` needs of the input to block, besides the risk.
abbrev pub blocked_by_input : DecisionInput → Bool
blocked_by_input i =
    is_denied i.host_permission || i.unsafe_link || i.sensitive || i.unbounded || not i.in_scope

decide_inv :
    (i : DecisionInput) (d : Decision)
    → decide i ≡ ok d
    → (base : ℕ) × (action_risk i.action ≡ some base)
      × (10 ≤ base)
      × (base ≤ 90)
      × (is_read_only i.action ≡ false → 25 ≤ base)
      × (d ≡ decide_known i base)
unfolding decide
decide_inv i d e = ground arith

choose_blocks_iff :
    (i : DecisionInput) (r : ℕ)
    → (choose_outcome i r ≡ block)
      ↔ ((blocked_by_input i ≡ true) ⊎ ((i.conflicted ≡ true) × (50 ≤ r)))
unfolding choose_outcome
choose_blocks_iff i r = (λ b. ground arith, λ b. ground arith)

map_denied_iff : (o : Outcome) (i : DecisionInput) → (map_outcome o i ≡ denied) ↔ (o ≡ block)
unfolding map_outcome
map_denied_iff o i = (λ b. ground arith, λ b. ground arith)

-- The input allows execution, whatever the risk.
abbrev pub allowed_by_input : DecisionInput → Bool
allowed_by_input i =
    is_follow i.execution_policy
    && i.explicit_intent
    && is_permitted i.host_permission
    && not (blocked_by_input i)
    && not (requires_approval i.action)
    && (i.capability_known || is_read_only i.action)

choose_recommends_iff :
    (i : DecisionInput) (r : ℕ)
    → (map_outcome (choose_outcome i r) i ≡ execution_recommended) ↔ (
        (allowed_by_input i ≡ true)
        × ((i.conflicted && leb 50 r) ≡ false)
        × ((i.ambiguous && leb 25 r) ≡ false))
unfolding choose_outcome map_outcome
choose_recommends_iff i r = (λ b. ground arith, λ b. ground arith)

module _ (i : DecisionInput) {d : Decision} (decided : decide i ≡ ok d) where
  -- The risk of a decision lies between 10 and 100.
  pub decide_risk_bounds : (10 ≤ d.risk) × (d.risk ≤ 100)
  unfolding decide
  decide_risk_bounds = ground arith

  -- An action is blocked exactly when the host denies it, a link is unsafe, it is sensitive,
  -- unbounded or out of scope, or it is conflicted at a risk of 50 or more; and it is denied
  -- exactly when it is blocked.
  pub decide_blocks_iff :
      ((d.outcome ≡ block)
        ↔ ((blocked_by_input i ≡ true) ⊎ ((i.conflicted ≡ true) × (50 ≤ d.risk))))
      × ((d.policy_outcome ≡ denied) ↔ (d.outcome ≡ block))
  unfolding decide_known
  decide_blocks_iff =
      let (base, _, _, _, _, same) = decide_inv i d decided in
      rw same (choose_blocks_iff i _, map_denied_iff _ i)

  -- Execution is recommended exactly when the policy follows an explicit intent that the host
  -- permits, nothing blocks the action, it is of no class that needs approval, its capability is
  -- known or it only reads, and it is neither conflicted at a risk of 50 or more nor ambiguous at
  -- a risk of 25 or more.
  pub decide_recommends_iff : (d.policy_outcome ≡ execution_recommended) ↔ (
      (allowed_by_input i ≡ true)
      × ((i.conflicted && leb 50 d.risk) ≡ false)
      × ((i.ambiguous && leb 25 d.risk) ≡ false))
  unfolding decide_known
  decide_recommends_iff =
      let (base, _, _, _, _, same) = decide_inv i d decided in rw same (choose_recommends_iff i _)

adjusted_risk_mono :
    (base : ℕ) (a c a' c' : Bool) → adjusted_risk base a c ≤ adjusted_risk base (a || a') (c || c')
unfolding adjusted_risk
adjusted_risk_mono base a c a' c' = ground arith

le_adjusted_risk : (base : ℕ) (a c : Bool) → base ≤ 90 → base ≤ adjusted_risk base a c
unfolding adjusted_risk
le_adjusted_risk base a c h = ground arith

choose_outcome_mono :
    (i : DecisionInput) (a c u s b : Bool) (r r' : ℕ)
    → is_read_only i.action ≡ false
    → 25 ≤ r
    → r ≤ r'
    → severity (choose_outcome i r) ≤ severity (choose_outcome (with_hazards i a c u s b) r')
unfolding choose_outcome
choose_outcome_mono i a c u s b r r' w l h = ground arith

-- Of an action that does more than read, hazards added to the input never lower the risk nor
-- soften the outcome.
pub decide_hazards_mono :
    (i : DecisionInput) (a c u s b : Bool) {d d' : Decision}
    → is_read_only i.action ≡ false
    → decide i ≡ ok d
    → decide (with_hazards i a c u s b) ≡ ok d'
    → (d.risk ≤ d'.risk) × (severity d.outcome ≤ severity d'.outcome)
unfolding decide_known
decide_hazards_mono i a c u s b {d} {d'} w e e' =
    let (base, p, _, top, least, same) = decide_inv i d e in
    let (base', p', _, _, _, same') = decide_inv (with_hazards i a c u s b) d' e' in
    let bases : base' ≡ base = cc in
    let risks = adjusted_risk_mono base i.ambiguous i.conflicted a c in
    rw (same, same', bases)
      (
        risks,
        choose_outcome_mono i a c u s b _ _ w
            (omega (arith, least w, le_adjusted_risk base i.ambiguous i.conflicted top)) risks,
      )
