-- ===== src/Diagnosis.antt =====
-- internal/diagnosis/diagnosis.go: what the detectors' observations amount to.
use codex_prompt_better.Base.{
  ℕ, String, Bool, not, ◌&&◌, ◌||◌, if◌then◌else◌, str_eq, ltb, List, [], ◌∷◌, Option, none, some,
  length, take,
}
use codex_prompt_better.Base.Text.{str_lt}
use codex_prompt_better.Base.Integers.{ℤ, is_positive, int_lt}
use codex_prompt_better.Base.Sorting.{sort}
use codex_prompt_better.Contracts.{CoverageState, is_complete}

-- The fields of `contracts.AuditFinding` that the detectors fill.
pub record Finding : Type 0 where
  pub code : String
  pub detector : String
  pub detector_version : String
  pub cause : String
  pub exception_check : String
  pub classification : String
  pub confidence : String
  pub evidence_refs : List String
  pub counterevidence : List String

unfoldable pub bounded : List String → ℕ → List String
unfolding sort
bounded values limit =
    let result = sort str_lt values in
    if ltb limit (length result) then take limit result else result

abbrev pub has_code_before : Finding → Finding → Bool
has_code_before a b = str_lt a.code b.code

-- `at_most p d r` is `float64(p)/float64(d) <= r`, and `is_above_zero r` is `r > 0`.
module _ {F : Type 0} (is_above_zero : F → Bool) (at_most : ℤ → ℤ → F → Bool) where
  pub record Observation : Type 0 where
    pub code : String
    pub cause : String
    pub exception_check : String
    pub classification : String
    pub coverage : CoverageState
    pub positive_count : ℤ
    pub denominator : ℤ
    pub minimum_sample : ℤ
    pub minimum_rate : F
    pub evidence_refs : List String
    pub counterevidence : List String
    pub required_work : Bool
    pub confounder_matched : Bool

  -- The classification with its confidence, before the empty one is replaced.
  unfoldable pub classify : Observation → String × String
  classify o =
      if o.required_work
      then ("necessary", "high")
      else if not (is_complete o.coverage) || int_lt o.denominator o.minimum_sample
      then ("uncertain", "unknown")
      else if not o.confounder_matched || ltb 0 (length o.counterevidence)
      then ("mixed", "medium")
      else (o.classification, "high")

  unfoldable pub finding_of : Observation → Finding
  unfolding classify bounded
  finding_of o =
      let (classification, confidence) = classify o in
      record {
        code = o.code;
        detector = o.code;
        detector_version = "detector-v1";
        cause = o.cause;
        exception_check = o.exception_check;
        classification = if str_eq classification "" then "uncertain" else classification;
        confidence = confidence;
        evidence_refs = bounded o.evidence_refs 100;
        counterevidence = bounded o.counterevidence 20;
      }

  -- `evaluate`
  unfoldable pub evaluate_one : Observation → Option Finding
  unfolding finding_of
  evaluate_one o =
      if not (is_positive o.positive_count)
      then none
      else if is_positive o.denominator
          && is_above_zero o.minimum_rate
          && at_most o.positive_count o.denominator o.minimum_rate
      then none
      else some (finding_of o)

  unfoldable pub evaluate_each : List Observation → List Finding
  unfolding evaluate_one
  evaluate_each [] = []
  evaluate_each (o ∷ os) =
      let rest = evaluate_each os in elim (evaluate_one o) [ none ↦ rest | some f ↦ f ∷ rest ]

  -- `Evaluate`
  unfoldable pub evaluate : List Observation → List Finding
  unfolding evaluate_each sort
  evaluate os = sort has_code_before (evaluate_each os)
