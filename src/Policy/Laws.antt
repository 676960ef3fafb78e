-- ===== src/Policy/Laws.antt =====
-- What internal/policy promises: when it recommends execution, and when it answers at all.
use codex_prompt_better.Base.{◌≡◌, ◌↔◌, ok, err, arith, is_ok, ◌&&◌}
use codex_prompt_better.Contracts.{
  ExecutionPolicy, follow_user_intent, execution_recommended, invalid_schema, Error,
}
use codex_prompt_better.Policy.{
  HostPermission, host_permitted, Phase, implementation, valid_execution_policy,
  valid_host_permission, valid_phase, resolve,
}

-- Execution is recommended exactly when the phase is implementation, the policy is to follow the
-- user's intent, and the host permits it.
pub resolve_recommends_iff :
    (p : ExecutionPolicy) (f : Phase) (h : HostPermission)
    → (resolve p f h ≡ ok execution_recommended)
      ↔ ((f ≡ implementation) × (p ≡ follow_user_intent) × (h ≡ host_permitted))
unfolding resolve
resolve_recommends_iff p f h = (λ e. ground arith, λ e. ground arith)

-- An answer is given exactly for a known policy, a known permission and a known phase, and the
-- internal error at the end of the function is never returned.
pub resolve_total :
    (p : ExecutionPolicy) (f : Phase) (h : HostPermission)
    → (is_ok (resolve p f h)
        ≡ (valid_execution_policy p && valid_host_permission h && valid_phase f))
      × ((e : Error) → resolve p f h ≡ err e → e.code ≡ invalid_schema)
unfolding resolve
resolve_total p f h = (ground arith, λ e. ground arith)
