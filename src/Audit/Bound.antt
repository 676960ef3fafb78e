-- ===== src/Audit/Bound.antt =====
-- `boundResult`: the result is made smaller until its encoding fits.
pub mod Laws
pub mod Fitting
use codex_prompt_better.Base.{
  ℕ, zero, suc, ◌+◌, Bool, leb, if◌then◌else◌, List, [], ◌∷◌, map, Option, none, some, length,
  String,
}
use codex_prompt_better.Diagnosis.{Finding}
use codex_prompt_better.Recommendation.{Recommendation}
use codex_prompt_better.Audit.Omission.{omit_last, omit_held, or_else, total}

-- An item with evidence; `body` is all that it has besides.
pub record Evidenced (B : Type 0) : Type 0 where
  pub body : B
  pub evidence_refs : List String

-- The parts of an `AuditProjectResult` of which something may be left out, its recommendations, and
-- in `others` all that is not touched.
pub record Parts : Type 1 where
  pub Metric : Type 0
  pub Guardrail : Type 0
  pub Contribution : Type 0
  pub Confounder : Type 0
  pub Effect : Type 0
  pub Outlier : Type 0
  pub Others : Type 0

abbrev pub hold_refs : {B : Type 0} → Evidenced B → List String → Evidenced B
hold_refs e refs = record e { evidence_refs = refs }

abbrev pub hold_counter : Finding → List String → Finding
hold_counter f refs = record f { counterevidence = refs }

pub data BoundError : Type 0 where
  encode_failed clone_failed budget_exhausted : BoundError

module _ (parts : Parts) where
  pub record AuditResult : Type 0 where
    pub metrics : List (Evidenced parts.Metric)
    pub findings : List Finding
    pub recommendations : List Recommendation
    pub guardrails : List (Evidenced parts.Guardrail)
    pub contributions : List parts.Contribution
    pub confounders : List parts.Confounder
    pub workload_effects : List parts.Effect
    pub outliers : List parts.Outlier
    pub others : parts.Others
    pub omitted_count : ℕ

  pub data Bounding : Type 0 where
    bounded : AuditResult → Bounding
    failed : BoundError → Bounding
    out_of_fuel : Bounding

  abbrev pub one_less :
      {A : Type 0} → AuditResult → (A → AuditResult) → Option A → Option AuditResult
  one_less r set none = none
  one_less r set (some a) = some (record (set a) { omitted_count = r.omitted_count + 1 })

  unfoldable pub omit_evidence : AuditResult → Option AuditResult
  unfolding omit_held
  omit_evidence r =
      or_else
        (one_less r (λ m. record r { metrics = m })
          (omit_held (λ e. e.evidence_refs) hold_refs r.metrics))
        (or_else
          (one_less r (λ f. record r { findings = f })
            (omit_held (λ f. f.counterevidence) hold_counter r.findings))
          (one_less r (λ g. record r { guardrails = g })
            (omit_held (λ e. e.evidence_refs) hold_refs r.guardrails)))

  unfoldable pub omit_one : AuditResult → Option AuditResult
  unfolding omit_evidence omit_last
  omit_one r = or_else (omit_evidence r) (
      or_else (one_less r (λ c. record r { contributions = c }) (omit_last r.contributions)) (
        or_else (one_less r (λ c. record r { confounders = c }) (omit_last r.confounders)) (
          or_else
            (one_less r (λ w. record r { workload_effects = w }) (omit_last r.workload_effects))
            (one_less r (λ o. record r { outliers = o }) (omit_last r.outliers)))))

  -- How many items may be left out, and how many of these are evidence.
  abbrev pub evidence_items : AuditResult → ℕ
  evidence_items r =
      total (λ e. e.evidence_refs) hold_refs r.metrics
      + (total (λ f. f.counterevidence) hold_counter r.findings
          + total (λ e. e.evidence_refs) hold_refs r.guardrails)

  abbrev pub droppable : AuditResult → ℕ
  droppable r =
      evidence_items r
      + (length r.contributions
          + (length r.confounders + (length r.workload_effects + length r.outliers)))

  -- `size r` is the number of bytes of the result's JSON, `none` if it cannot be encoded; `clone`
  -- encodes and decodes.
  module _ (size : AuditResult → Option ℕ) (clone : AuditResult → Option AuditResult)
      (limit : ℕ) where
    abbrev fits : AuditResult → Option ℕ → Bounding → Bounding
    fits r none smaller = failed encode_failed
    fits r (some n) smaller = if leb n limit then bounded r else smaller

    abbrev go_on : (AuditResult → Bounding) → Option AuditResult → Bounding
    go_on loop none = failed budget_exhausted
    go_on loop (some r) = loop r

    -- Each round leaves one item out, so one round more than there are items is enough.
    unfoldable pub bound_loop : ℕ → AuditResult → Bounding
    unfolding omit_one
    bound_loop zero r = out_of_fuel
    bound_loop (suc fuel) r = fits r (size r) (go_on (bound_loop fuel) (omit_one r))

    abbrev cloned : Option ℕ → Option AuditResult → Bounding
    cloned none c = failed encode_failed
    cloned (some n) none = failed clone_failed
    cloned (some n) (some c) = bound_loop (suc (droppable c)) c

    unfoldable pub bound_result : AuditResult → Bounding
    unfolding bound_loop
    bound_result r = cloned (size r) (clone r)
