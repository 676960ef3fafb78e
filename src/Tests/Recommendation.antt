-- ===== src/Tests/Recommendation.antt =====
-- Findings of which one leads to a recommendation, and an observation that leads to none.
use codex_prompt_better.Base.{
  ℕ, ◌≡◌, refl, String, Bool, true, false, ltb, List, [], ◌∷◌, none, All, ◌⊎◌,
}
use codex_prompt_better.Base.Integers.{ℤ, pos}
use codex_prompt_better.Contracts.{partial}
use codex_prompt_better.Diagnosis.{Finding, Observation, evaluate}
use codex_prompt_better.Recommendation.{Context, no_action, generate}
use codex_prompt_better.Recommendation.Laws.{IsMade, generate-IsMade, generate-evaluate}

abbrev pub a_finding : String → String → Finding
a_finding code classification = record {
  code = code;
  detector = code;
  detector_version = "detector-v1";
  cause = "cause";
  exception_check = "check";
  classification = classification;
  confidence = "high";
  evidence_refs = "ref" ∷ [];
  counterevidence = [];
}

abbrev pub some_findings : List Finding
some_findings = a_finding "passive_polling" "waste" ∷ a_finding "checkpoint_gap" "necessary" ∷ []

abbrev pub a_context : Context
a_context = record {
  as_of = 5;
  existing_rule_coverage = λ code. false;
  feedback = λ code. none;
  material_evidence_revision = "";
  evidence_revisions = λ code. "";
  quality_guardrails_pass = true;
}

generate-IsMade_example :
    All
      (λ r. (r ≡ no_action) ⊎ IsMade (λ f. f.evidence_refs ≡ "ref" ∷ []) a_context r)
      (generate some_findings a_context)
generate-IsMade_example =
    generate-IsMade (λ f. f.evidence_refs ≡ "ref" ∷ []) some_findings a_context (refl, (refl, tt))

abbrev pub above_zero : ℕ → Bool
above_zero r = ltb 0 r

abbrev pub never_at_most : ℤ → ℤ → ℕ → Bool
never_at_most p d r = false

abbrev pub an_observation : Observation above_zero never_at_most
an_observation = record {
  code = "passive_polling";
  cause = "cause";
  exception_check = "check";
  classification = "waste";
  coverage = partial;
  positive_count = pos 9;
  denominator = pos 10;
  minimum_sample = pos 3;
  minimum_rate = 0;
  evidence_refs = [];
  counterevidence = [];
  required_work = false;
  confounder_matched = true;
}

generate-evaluate_example :
    generate (evaluate above_zero never_at_most (an_observation ∷ [])) a_context ≡ no_action ∷ []
generate-evaluate_example =
    generate-evaluate above_zero never_at_most a_context (an_observation ∷ []) (refl, tt)
