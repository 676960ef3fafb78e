-- ===== src/Audit/Engine/Laws.antt =====
-- What a finished audit says, and how one fails.
use mathlib.Core.Path.{subst}
use codex_prompt_better.Base.{
  ◌≡◌, refl, ◌⊎◌, inl, inr, String, false, List, [], ◌∷◌, length, Option, none, some, Result, ok,
  err, Result-cases, Option-cases,
}
use codex_prompt_better.Base.Floats.{Floats, Arithmetic}
use codex_prompt_better.Contracts.{Error, insufficient}
use codex_prompt_better.Diagnosis.{Finding}
use codex_prompt_better.Recommendation.{Recommendation, generate}
use codex_prompt_better.Metrics.Compute.{MetricResult, inconsistent, unknown_definition, compute}
use codex_prompt_better.Metrics.Laws.{IsMeasured, compute-IsMeasured}
use codex_prompt_better.Baseline.{Comparison, apply}
use codex_prompt_better.Baseline.Laws.{claims, IsJustified, apply-IsJustified}
use codex_prompt_better.Audit.Request.{AuditRequest, validate_request}
use codex_prompt_better.Audit.Snapshot.{Snapshot, normalize_snapshot, detect}
use codex_prompt_better.Audit.Facts.{definition_of}
use codex_prompt_better.Audit.Engine.{
  context_of, compared, apply_comparisons, AuditFailure, rejected, unavailable, measured, panicked,
  AuditResult, conclude, calculate, run,
}

module _ (floats : Floats) (arithmetic : Arithmetic floats) where
  -- What becomes of one measured metric: without a comparison of its own it claims nothing; with one
  -- it is the result of `Apply` on the metric, its definition and that comparison, and claims an
  -- improvement or a worsening only if these justify it.
  abbrev pub IsJudged :
      (String → Option (Comparison floats)) → MetricResult floats → MetricResult floats → Type 0
  IsJudged comparisons m r =
      ((comparisons m.name ≡ none)
        × (r ≡ record m {
          status = insufficient;
          status_reason = "comparison_unavailable";
          confidence = "unknown";
        }))
      ⊎ ((c : Comparison floats) × (comparisons m.name ≡ some c)
          × (apply floats arithmetic m (definition_of m.name) c ≡ some r)
          × ((claims r.status ≡ false) ⊎ IsJustified floats arithmetic m (definition_of m.name) c))

  -- Every result with the metric in its place.
  abbrev pub AreJudged :
      (String → Option (Comparison floats))
      → List (MetricResult floats)
      → List (MetricResult floats)
      → Type 0
  AreJudged comparisons [] [] = Unit
  AreJudged comparisons (m ∷ ms) (r ∷ rs) = IsJudged comparisons m r × AreJudged comparisons ms rs
  AreJudged comparisons _ _ = ⊥

  compared-IsJudged :
      (comparisons : String → Option (Comparison floats)) (m : MetricResult floats)
      → (r : MetricResult floats) × (compared floats arithmetic comparisons m ≡ some r)
        × IsJudged comparisons m r
  unfolding compared
  compared-IsJudged comparisons m = elim (Option-cases (comparisons m.name)) [
    | inl e ↦ (
      record m {
        status = insufficient;
        status_reason = "comparison_unavailable";
        confidence = "unknown";
      },
      rw (compared, e) refl,
      inl (e, refl),
    )
    | inr (c, e) ↦
        let (r, out, justified) = apply-IsJustified floats arithmetic m (definition_of m.name) c in
        (r, rw (compared, e) out, inr (c, e, out, justified))
  ]

  apply_comparisons-AreJudged :
      (comparisons : String → Option (Comparison floats)) (ms : List (MetricResult floats))
      → (rs : List (MetricResult floats)) × (apply_comparisons floats arithmetic comparisons ms
          ≡ some rs)
        × AreJudged comparisons ms rs
  unfolding apply_comparisons
  apply_comparisons-AreJudged comparisons [] = ([], refl, tt)
  apply_comparisons-AreJudged comparisons (m ∷ ms) =
      let (r, one, judged) = compared-IsJudged comparisons m in
      let (rs, others, all) = apply_comparisons-AreJudged comparisons ms in
      (r ∷ rs, rw (one, others) refl, (judged, all))

  module _ {E : Type 0} (digest : List String → String)
      (revise : Snapshot floats
        → List (MetricResult floats)
        → List Finding
        → List Recommendation
        → Result E String) where
    -- What the calculations on a snapshot amount to.
    abbrev pub IsCalculated :
        Snapshot floats → Result (AuditFailure E) (AuditResult floats) → Type 0
    IsCalculated s (err (rejected e)) = ⊥
    IsCalculated s (err panicked) = ⊥
    IsCalculated s (err (measured unknown_definition)) = ⊥
    IsCalculated s (err (measured inconsistent)) =
        (compute floats arithmetic s.metrics ≡ err inconsistent)
        ⊎ (compute floats arithmetic s.governance_overhead ≡ err inconsistent)
    IsCalculated s (err (unavailable e)) =
        (metrics : List (MetricResult floats)) × (findings : List Finding) × (recommendations : List
          Recommendation)
        × (revise s metrics findings recommendations ≡ err e)
    IsCalculated s (ok r) =
        (ms : List (MetricResult floats)) × (compute floats arithmetic s.metrics ≡ ok ms)
        × (length ms ≡ 14)
        × AreJudged s.comparisons ms r.metrics
        × (compute floats arithmetic s.governance_overhead ≡ ok r.governance_overhead)

    conclude-IsCalculated :
        (s : Snapshot floats) (ms rs overhead : List (MetricResult floats))
        → compute floats arithmetic s.metrics ≡ ok ms
        → length ms ≡ 14
        → AreJudged s.comparisons ms rs
        → compute floats arithmetic s.governance_overhead ≡ ok overhead
        → IsCalculated s (conclude floats arithmetic digest revise s rs overhead)
    unfolding conclude
    conclude-IsCalculated s ms rs overhead e l all k =
        let findings = detect floats arithmetic s in
        let recommendations =
          generate findings (context_of floats arithmetic digest revise s findings) in
        elim (Result-cases (revise s rs findings recommendations)) [
          | inl (x, failed) ↦ rw (conclude, failed) (rs, findings, recommendations, failed)
          | inr (h, revised) ↦ rw (conclude, revised) (ms, e, l, all, k)
        ]

    calculate-IsCalculated :
        (s : Snapshot floats) → IsCalculated s (calculate floats arithmetic digest revise s)
    unfolding calculate
    calculate-IsCalculated s = elim (Result-cases (compute floats arithmetic s.metrics)) [
      | inl (inconsistent, e) ↦ rw (calculate, e) (inl e)
      | inl (unknown_definition, e) ↦
          elim (subst (IsMeasured floats arithmetic s.metrics) e
            (compute-IsMeasured floats arithmetic s.metrics)) [ ]
      | inr (ms, e) ↦
          let (i, l, o, a) =
            subst (IsMeasured floats arithmetic s.metrics) e
              (compute-IsMeasured floats arithmetic s.metrics) in
          let (rs, compared_all, judged) = apply_comparisons-AreJudged s.comparisons ms in
          elim (Result-cases (compute floats arithmetic s.governance_overhead)) [
            | inl (inconsistent, k) ↦ rw (calculate, e, compared_all, k) (inr k)
            | inl (unknown_definition, k) ↦
                elim (subst (IsMeasured floats arithmetic s.governance_overhead) k
                  (compute-IsMeasured floats arithmetic s.governance_overhead)) [ ]
            | inr (overhead, k) ↦
                rw (calculate, e, compared_all, k)
                  (conclude-IsCalculated s ms rs overhead e l judged k)
          ]
    ]

    module _ (source : AuditRequest → Result E (Snapshot floats)) where
      -- What becomes of an audit.
      abbrev pub IsAudited : AuditRequest → Result (AuditFailure E) (AuditResult floats) → Type 0
      IsAudited request outcome =
          ((refusal : Error) × (validate_request request ≡ err refusal)
            × (outcome ≡ err (rejected refusal)))
          ⊎ ((validate_request request ≡ ok tt)
              × (((e : E) × (source request ≡ err e) × (outcome ≡ err (unavailable e)))
                  ⊎ ((s : Snapshot floats) × (source request ≡ ok s)
                      × IsCalculated (normalize_snapshot floats s) outcome)))

      -- An invalid request is rejected before the source is asked. A valid one fails only if the
      -- source or the hash of the revision fails or the counts of the snapshot are inconsistent: no
      -- index is out of range and no metric without a definition. A finished audit has the results
      -- of `Compute` on the governance's overhead, and for each of the 14 metrics that `Compute` measures,
      -- in their places, either the metric with no claim, if it has no comparison, or the result of
      -- `Apply` on that metric, its definition and its comparison, which claims an improvement or a
      -- worsening only if these justify it.
      pub run-IsAudited :
          (request : AuditRequest)
          → IsAudited request (run floats arithmetic digest revise source request)
      unfolding run
      run-IsAudited request = elim (Result-cases (validate_request request)) [
        | inl (refusal, e) ↦ inl (refusal, e, rw (run, e) refl)
        | inr (tt, e) ↦ elim (Result-cases (source request)) [
          | inl (failure, k) ↦ inr (e, inl (failure, k, rw (run, e, k) refl))
          | inr (s, k) ↦
              inr (
                e,
                inr (s, k, rw (run, e, k) (calculate-IsCalculated (normalize_snapshot floats s))),
              )
        ]
      ]
