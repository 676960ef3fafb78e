-- ===== src/Replay/Gates.antt =====
-- The gate of the guardrails, and the decision on a comparison.
use codex_prompt_better.Base.{
  String, true, false, if◌then◌else◌, List, [], ◌∷◌, map, some_of, each_of, ok, ◌≡◌, ◌≢◌, refl, ◌↔◌,
  arith, Option, inl, inr, ◌⊎◌,
}
use codex_prompt_better.Base.Floats.{Floats}
use codex_prompt_better.Contracts.{MetricStatus}
use codex_prompt_better.Replay.Metric.{
  Polarity, Outcome, improvement, regression, GateState, pass, fail, unknown, is_pass, is_fail,
  gate_loop, quality_gate_state,
}
use codex_prompt_better.Replay.Compare.{Audit, Comparison, compare}
use codex_prompt_better.Replay.Decision.{decide, promote, rollback}
use codex_prompt_better.Replay.Outcomes.{
  is_worsened, is_doubtful, is_improved, outcome_of, second, compare-outcome_of, compare-gate,
}

gate_loop-fail :
    (state : GateState) (gs : List GateState)
    → is_fail state ≡ false
    → (gate_loop state gs ≡ fail) ↔ (some_of is_fail gs ≡ true)
unfolding gate_loop
gate_loop-fail state [] h = (λ e. ground arith, λ e. ground arith)
gate_loop-fail state (g ∷ gs) h =
    let ih = gate_loop-fail (if is_pass g then state else unknown) gs (ground arith) in
    (λ e. ground arith, λ e. ground arith)

gate_loop-pass :
    (state : GateState) (gs : List GateState)
    → is_fail state ≡ false
    → (gate_loop state gs ≡ pass) ↔ ((state ≡ pass) × (each_of is_pass gs ≡ true))
unfolding gate_loop
gate_loop-pass state [] h = (λ e. ground arith, λ e. ground arith)
gate_loop-pass state (g ∷ gs) h =
    let ih = gate_loop-pass (if is_pass g then state else unknown) gs (ground arith) in
    (λ e. ground arith, λ e. ground arith)

-- The gate of the guardrails fails exactly when one of them fails, and passes exactly when there
-- is one and all of them pass.
pub quality_gate_state_iff :
    (gs : List GateState)
    → ((quality_gate_state gs ≡ fail) ↔ (some_of is_fail gs ≡ true))
      × ((quality_gate_state gs ≡ pass) ↔ ((gs ≢ []) × (each_of is_pass gs ≡ true)))
unfolding quality_gate_state
quality_gate_state_iff [] = ((λ e. cc, λ e. cc), (λ e. cc, λ e. absurd (e.0 refl)))
quality_gate_state_iff (g ∷ gs) =
    let failed = gate_loop-fail pass (g ∷ gs) refl in
    let passed = gate_loop-pass pass (g ∷ gs) refl in
    (failed, (λ e. (λ n. cc, (passed.0 e).1), λ e. passed.1 (refl, e.1)))

promote_iff :
    (o : Outcome) (g : GateState) → (decide o g ≡ promote) ↔ ((o ≡ improvement) × (g ≡ pass))
unfolding decide
promote_iff o g = (λ e. ground arith, λ e. ground arith)

rollback_iff :
    (o : Outcome) (g : GateState) → (decide o g ≡ rollback) ↔ ((o ≡ regression) ⊎ (g ≡ fail))
unfolding decide
rollback_iff o g = (λ e. ground arith, λ e. ground arith)

outcome_of-improvement :
    (ss : List MetricStatus)
    → (outcome_of ss ≡ improvement) ↔ (
        (some_of is_worsened ss ≡ false)
        × (some_of is_doubtful ss ≡ false)
        × (some_of is_improved ss ≡ true))
outcome_of-improvement ss = (λ e. ground arith, λ e. ground arith)

outcome_of-regression :
    (ss : List MetricStatus) → (outcome_of ss ≡ regression) ↔ (some_of is_worsened ss ≡ true)
outcome_of-regression ss = (λ e. ground arith, λ e. ground arith)

decide-statuses :
    (ss : List MetricStatus) (gs : List GateState)
    → ((decide (outcome_of ss) (quality_gate_state gs) ≡ promote) ↔ (
        (some_of is_worsened ss ≡ false)
        × (some_of is_doubtful ss ≡ false)
        × (some_of is_improved ss ≡ true)
        × (gs ≢ [])
        × (each_of is_pass gs ≡ true)))
      × ((decide (outcome_of ss) (quality_gate_state gs) ≡ rollback)
          ↔ ((some_of is_worsened ss ≡ true) ⊎ (some_of is_fail gs ≡ true)))
decide-statuses ss gs =
    let (gate_fails, gate_passes) = quality_gate_state_iff gs in
    let up = outcome_of-improvement ss in
    let down = outcome_of-regression ss in
    let p = promote_iff (outcome_of ss) (quality_gate_state gs) in
    let r = rollback_iff (outcome_of ss) (quality_gate_state gs) in
    (
      (
        λ e.
            let (good, passed) = p.0 e in
            let (a, b, c) = up.0 good in let (n, all) = gate_passes.0 passed in (a, b, c, n, all),
        λ (a, b, c, n, all). p.1 (up.1 (a, b, c), gate_passes.1 (n, all)),
      ),
      (
        λ e. elim (r.0 e) [ inl bad ↦ inl (down.0 bad) | inr bad ↦ inr (gate_fails.0 bad) ],
        λ e. r.1 (elim e [ inl bad ↦ inl (down.1 bad) | inr bad ↦ inr (gate_fails.1 bad) ]),
      ),
    )

-- A compared candidate is promoted exactly when no metric worsened, is mixed or is insufficient, one
-- improved, and there are guardrails and all of them pass; and it is rolled back exactly when a
-- metric worsened or a guardrail fails.
pub decide-compare :
    (floats : Floats) (definitions : String → Option Polarity)
    (baseline candidate : Audit floats definitions) (c : Comparison floats definitions)
    → compare floats definitions baseline candidate ≡ ok c
    → let statuses = map second c.statuses in
      let gates = candidate.guardrails in
      ((decide c.outcome c.quality_gate_state ≡ promote) ↔ (
        (some_of is_worsened statuses ≡ false)
        × (some_of is_doubtful statuses ≡ false)
        × (some_of is_improved statuses ≡ true)
        × (gates ≢ [])
        × (each_of is_pass gates ≡ true)))
      × ((decide c.outcome c.quality_gate_state ≡ rollback)
          ↔ ((some_of is_worsened statuses ≡ true) ⊎ (some_of is_fail gates ≡ true)))
decide-compare floats definitions baseline candidate c e =
    rw
      (
        compare-outcome_of floats definitions baseline candidate c e,
        compare-gate floats definitions baseline candidate c e,
      )
      (decide-statuses (map second c.statuses) candidate.guardrails)
