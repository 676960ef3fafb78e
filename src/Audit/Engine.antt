-- ===== src/Audit/Engine.antt =====
-- `Engine.Run`: one audit from the request to the result. The source, the digests and the hash of
-- the revision are parameters.
pub mod Laws
use codex_prompt_better.Base.{
  ℕ, String, Bool, true, false, if◌then◌else◌, str_eq, List, [], ◌∷◌, Option, none, some, Result,
  ok, err, ◌>>=◌,
}
use codex_prompt_better.Base.Floats.{Floats, Arithmetic}
use codex_prompt_better.Contracts.{Error, CoverageState, insufficient}
use codex_prompt_better.Diagnosis.{Finding}
use codex_prompt_better.Recommendation.{Recommendation, Context, generate}
use codex_prompt_better.Metrics.Compute.{MetricResult, Failure, compute}
use codex_prompt_better.Baseline.{with_value, Comparison, apply}
use codex_prompt_better.Baseline.Outlier.{NativeOutlier, rank}
use codex_prompt_better.Audit.Request.{AuditRequest, validate_request}
use codex_prompt_better.Audit.References.{guardrails_pass}
use codex_prompt_better.Audit.Snapshot.{Snapshot, normalize_snapshot, detect}
use codex_prompt_better.Audit.Facts.{ReportFacts, definition_of, build_report_facts}

-- `findingEvidenceRevisions`, a map: the digest of the last finding with the code.
unfoldable pub finding_evidence_revisions :
    (List String → String) → String → List Finding → String → String
finding_evidence_revisions digest found [] code = found
finding_evidence_revisions digest found (f ∷ fs) code =
    finding_evidence_revisions digest (if str_eq f.code code then digest f.evidence_refs else found)
      fs code

-- Why an audit has no result; `panicked` is an index out of range.
pub data AuditFailure (E : Type 0) : Type 0 where
  rejected : Error → AuditFailure E
  unavailable : E → AuditFailure E
  measured : Failure → AuditFailure E
  panicked : AuditFailure E

module _ (floats : Floats) where
  pub record AuditResult : Type 0 where
    pub audit_reference : String
    pub as_of : ℕ
    pub revision_hash : String
    pub coverage : CoverageState
    pub metrics : List (MetricResult floats)
    pub findings : List Finding
    pub recommendations : List Recommendation
    pub governance_overhead : List (MetricResult floats)
    pub outliers : List (NativeOutlier floats)
    pub guardrails : List String
    pub report_facts : ReportFacts

  module _ (arithmetic : Arithmetic floats) where
    -- The body of the loop of `applyComparisons`.
    unfoldable pub compared :
        (String → Option (Comparison floats)) → MetricResult floats → Option (MetricResult floats)
    unfolding apply
    compared comparisons m = elim (comparisons m.name) [
      | none ↦ some (record m {
        status = insufficient;
        status_reason = "comparison_unavailable";
        confidence = "unknown";
      })
      | some c ↦ apply floats arithmetic m (definition_of m.name) c
    ]

    unfoldable pub apply_comparisons :
        (String → Option (Comparison floats))
        → List (MetricResult floats)
        → Option (List (MetricResult floats))
    unfolding compared
    apply_comparisons comparisons [] = some []
    apply_comparisons comparisons (m ∷ ms) =
        with_value (compared comparisons m)
          (λ r. with_value (apply_comparisons comparisons ms) (λ rs. some (r ∷ rs)))

    module _ {E : Type 0} (digest : List String → String)
        (revise : Snapshot floats
          → List (MetricResult floats)
          → List Finding
          → List Recommendation
          → Result E String) where
      abbrev pub or_failure {κ} :
          {B : Type 0} {A : Type κ} → (B → AuditFailure E) → Result B A → Result (AuditFailure E) A
      or_failure wrap (err e) = err (wrap e)
      or_failure wrap (ok a) = ok a

      abbrev pub or_panic {κ} : {A : Type κ} → Option A → Result (AuditFailure E) A
      or_panic none = err panicked
      or_panic (some a) = ok a

      abbrev pub context_of : Snapshot floats → List Finding → Context
      unfolding guardrails_pass finding_evidence_revisions
      context_of s findings = record {
        as_of = s.as_of;
        existing_rule_coverage = s.existing_rule_coverage;
        feedback = s.feedback;
        material_evidence_revision = s.material_evidence_revision;
        evidence_revisions = finding_evidence_revisions digest "" findings;
        quality_guardrails_pass = guardrails_pass s.guardrails;
      }

      -- Behind the calculations, lines 100 to 128.
      unfoldable pub conclude :
          Snapshot floats
          → List (MetricResult floats)
          → List (MetricResult floats)
          → Result (AuditFailure E) (AuditResult)
      unfolding detect generate rank build_report_facts guardrails_pass finding_evidence_revisions
          context_of
      conclude s calculated overhead =
          let findings = detect floats arithmetic s in
          let recommendations = generate findings (context_of s findings) in
          let outliers = rank floats arithmetic calculated in
          or_failure unavailable (revise s calculated findings recommendations) >>= λ revision.
          ok (record {
            audit_reference = s.reference;
            as_of = s.as_of;
            revision_hash = revision;
            coverage = s.coverage;
            metrics = calculated;
            findings = findings;
            recommendations = recommendations;
            governance_overhead = overhead;
            outliers = outliers;
            guardrails = s.guardrails;
            report_facts =
                build_report_facts floats s.guardrails calculated findings recommendations outliers;
          })

      unfoldable pub calculate : Snapshot floats → Result (AuditFailure E) AuditResult
      unfolding compute apply_comparisons conclude
      calculate s = or_failure measured (compute floats arithmetic s.metrics) >>= λ calculated.
          or_panic (apply_comparisons s.comparisons calculated) >>= λ results.
          or_failure measured (compute floats arithmetic s.governance_overhead) >>= λ overhead.
          conclude s results overhead

      unfoldable pub run :
          (AuditRequest → Result E (Snapshot floats))
          → AuditRequest
          → Result (AuditFailure E) AuditResult
      unfolding validate_request normalize_snapshot calculate
      run source request = or_failure rejected (validate_request request) >>= λ valid.
          or_failure unavailable (source request) >>= λ snapshot.
          calculate (normalize_snapshot floats snapshot)
