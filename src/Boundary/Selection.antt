-- ===== src/Boundary/Selection.antt =====
-- internal/boundary/engine.go: the selection of the best decisions, at most `MaxDecisions` of them;
-- the authority of a source is from internal/boundary/resolve.go.
pub mod Laws
pub mod Bounded
use codex_prompt_better.Base.{
  ℕ, suc, ◌+◌, String, Bool, true, false, not, ◌&&◌, ◌||◌, if◌then◌else◌, str_eq, ltb, ◌==◌, List,
  [], ◌∷◌, Option, none, some, length,
}
use codex_prompt_better.Base.Text.{str_lt}
use codex_prompt_better.Boundary.Decision.{Outcome, continue, warn, clarify, block, RiskLevel}

-- `contracts.BoundaryDecision` without its confidence, which is handed on. A risk is 0 to 100 and an
-- outcome one of four in a validated pack.
pub record Ruling : Type 0 where
  pub category : String
  pub outcome : Outcome
  pub risk : ℕ
  pub risk_level : RiskLevel
  pub source_ref : String
  pub pack_id : String
  pub rule_id : String
  pub version : String
  pub explanation : String
  pub conflict_refs : List String

pub record RankedDecision : Type 0 where
  pub decision : Ruling
  pub authority : ℕ
  pub candidate_order : ℕ

unfoldable pub authority : String → ℕ
authority source =
    if str_eq source "host_permission"
    then 6
    else if str_eq source "configuration"
    then 5
    else if str_eq source "instruction"
    then 4
    else if str_eq source "user_request"
    then 3
    else if str_eq source "repository_metadata"
    then 2
    else 1

unfoldable pub outcome_priority : Outcome → ℕ
outcome_priority block = 4
outcome_priority clarify = 3
outcome_priority warn = 2
outcome_priority continue = 1

unfoldable pub better_decision : RankedDecision → RankedDecision → Bool
unfolding outcome_priority
better_decision left right =
    if not (left.authority == right.authority)
    then ltb right.authority left.authority
    else if not (outcome_priority left.decision.outcome == outcome_priority right.decision.outcome)
    then ltb (outcome_priority right.decision.outcome) (outcome_priority left.decision.outcome)
    else if not (left.decision.risk == right.decision.risk)
    then ltb right.decision.risk left.decision.risk
    else if not (left.candidate_order == right.candidate_order)
    then ltb left.candidate_order right.candidate_order
    else if not (str_eq left.decision.pack_id right.decision.pack_id)
    then str_lt left.decision.pack_id right.decision.pack_id
    else if not (str_eq left.decision.rule_id right.decision.rule_id)
    then str_lt left.decision.rule_id right.decision.rule_id
    else str_lt left.decision.source_ref right.decision.source_ref

-- `container/heap` under `Less`, which puts the worst decision first: the list is kept best first, so
-- the heap's root is the last member.
module _ {ℓ} {A : Type ℓ} (better : A → A → Bool) where
  -- `heap.Push`
  unfoldable pub push : A → List A → List A
  push entry [] = entry ∷ []
  push entry (x ∷ xs) = if better entry x then entry ∷ x ∷ xs else x ∷ push entry xs

  unfoldable pub last_of : List A → Option A
  last_of [] = none
  last_of (x ∷ []) = some x
  last_of (x ∷ y ∷ ys) = last_of (y ∷ ys)

  unfoldable pub without_last : List A → List A
  without_last [] = []
  without_last (x ∷ []) = []
  without_last (x ∷ y ∷ ys) = x ∷ without_last (y ∷ ys)

  -- `selectDecision` with its bound; a root that is replaced leaves, and the entry finds its place.
  unfoldable pub select : ℕ → List A → A → List A
  unfolding push last_of without_last
  select limit selected entry =
      if ltb (length selected) limit then push entry selected else elim (last_of selected) [
        | none ↦ selected
        | some root ↦ if better entry root then push entry (without_last selected) else selected
      ]

  unfoldable pub select_all : ℕ → List A → List A → List A
  unfolding select
  select_all limit selected [] = selected
  select_all limit selected (entry ∷ entries) =
      select_all limit (select limit selected entry) entries

abbrev pub max_decisions : ℕ
max_decisions = 256

-- The calls of `selectDecision` that `EvaluateContext` makes on an empty heap.
unfoldable pub select_decisions : List RankedDecision → List RankedDecision
unfolding select_all better_decision
select_decisions entries = select_all better_decision max_decisions [] entries
