-- ===== src/Tests/Audit.antt =====
-- A result of which two items must be left out to fit, and a request of a project's audit.
use codex_prompt_better.Base.{
  ℕ, ◌*◌, ◌≤◌, ◌<◌, ◌≡◌, refl, String, true, List, [], ◌∷◌, Option, some, ok, str_eq, tally,
}
use codex_prompt_better.Audit.Omission.{omit_last, omit_held, front}
use codex_prompt_better.Audit.Bound.{Parts, AuditResult, bounded, droppable, bound_result}
use codex_prompt_better.Audit.Bound.Fitting.{Bounded, bound_result-Bounded}
use codex_prompt_better.Base.Sorting.{sort}
use codex_prompt_better.Audit.References.{merge_refs}
use codex_prompt_better.Audit.Request.{
  AuditRequest, valid_scope, has_shape, valid_sources, validate_request, validate_request-IsSound,
}

abbrev plain_parts : Parts
plain_parts = record {
  Metric = String;
  Guardrail = String;
  Contribution = ℕ;
  Confounder = ℕ;
  Effect = ℕ;
  Outlier = ℕ;
  Others = Unit;
}

abbrev left_of : List String → List ℕ → ℕ → AuditResult plain_parts
left_of refs contributions omitted = record {
  metrics = record { body = "polling"; evidence_refs = refs } ∷ [];
  findings = [];
  recommendations = [];
  guardrails = [];
  contributions = contributions;
  confounders = [];
  workload_effects = [];
  outliers = 7 ∷ [];
  others = tt;
  omitted_count = omitted;
}

-- Ten bytes for each item.
abbrev ten_each : AuditResult plain_parts → Option ℕ
ten_each r = some (10 * droppable plain_parts r)

abbrev long_result : AuditResult plain_parts
long_result = left_of ("a" ∷ "b" ∷ []) (1 ∷ 2 ∷ []) 3

-- The references go first, then a contribution.
long_result-run :
    bound_result plain_parts ten_each some 20 long_result ≡ bounded (left_of [] (1 ∷ []) 6)
unfolding bound_result omit_held omit_last front
long_result-run = refl

bound_result-Bounded_example :
    Bounded plain_parts ten_each some 20 long_result
      (bound_result plain_parts ten_each some 20 long_result)
bound_result-Bounded_example =
    bound_result-Bounded plain_parts ten_each some 20 long_result long_result 50 refl refl

abbrev a_request : AuditRequest
a_request = record {
  schema_version = "1.0.0";
  kind = "request";
  scope = "project";
  reference = "0123abcd-0123-0123-0123-0123456789AB";
  configured_sources = "git" ∷ "github" ∷ [];
  starts_at = 10;
  ends_at = 20;
  as_of = 15;
  consent = "granted";
}

a_request-run : validate_request a_request ≡ ok tt
unfolding validate_request valid_scope has_shape valid_sources
a_request-run = refl

validate_request-IsSound_example :
    (str_eq "granted" "granted" ≡ true)
    × (0 < 2)
    × (2 ≤ 20)
    × ((name : String) → tally (λ s. str_eq s name) ("git" ∷ "github" ∷ []) ≤ 1)
    × (10 < 20)
    × (10 ≤ 15)
validate_request-IsSound_example = validate_request-IsSound a_request a_request-run

abbrev two_groups : List (List String)
two_groups = ("b" ∷ "" ∷ []) ∷ ("a" ∷ "b" ∷ []) ∷ []

two_groups-merge_refs : merge_refs two_groups ≡ "a" ∷ "b" ∷ []
unfolding merge_refs sort
two_groups-merge_refs = refl
