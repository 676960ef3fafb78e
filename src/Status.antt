-- ===== src/Status.antt =====
-- internal/status/status.go: the status of the collectors' sources, sanitised and bounded.
pub mod Laws
use codex_prompt_better.Base.{
  ℕ, String, Bool, true, false, not, ◌&&◌, ◌||◌, if◌then◌else◌, str_eq, ltb, List, [], ◌∷◌, map,
  some_of, length, take,
}
use codex_prompt_better.Base.Text.{str_lt}
use codex_prompt_better.Base.Sorting.{sort}
use codex_prompt_better.Contracts.{CoverageState, missing, unknown, other_coverage}

-- `evidence.Coverage` has the constants of `contracts.CoverageState`. The families' coverage is a map, here a function, `unknown` or any text for a family that is absent.
pub record Source : Type 0 where
  pub kind : String
  pub enabled : Bool
  pub supported : Bool
  pub coverage : CoverageState
  pub coverage_reason : String
  pub field_coverage : String → CoverageState
  pub errors : List String

abbrev pub max_errors : ℕ
max_errors = 20

abbrev pub families : List String
families =
    "identity" ∷ "response" ∷ "items_phases" ∷ "tool_state" ∷ "lifecycle" ∷ "usage_cache"
    ∷ "governance_overhead" ∷ []

unfoldable pub known_coverage : CoverageState → CoverageState
known_coverage (other_coverage text) = unknown
known_coverage state = state

abbrev pub is_family : String → Bool
is_family family = some_of (λ f. str_eq f family) families

-- A key outside the families is absent from the result, which reads as the empty text.
unfoldable pub normalize_field_coverage : (String → CoverageState) → String → CoverageState
unfolding known_coverage
normalize_field_coverage values family =
    if is_family family then known_coverage (values family) else other_coverage ""

abbrev pub allowed : String → Bool
allowed code =
    str_eq code "malformed"
    || str_eq code "truncated"
    || str_eq code "sensitive"
    || str_eq code "adapter_failure"
    || str_eq code "offline"

abbrev pub sanitize_code : String → String
sanitize_code code = if allowed code then code else "adapter_failure"

unfoldable pub sanitize : List String → List String
sanitize errors =
    map sanitize_code (if ltb max_errors (length errors) then take max_errors errors else errors)

-- The loop's body.
unfoldable pub sanitize_source : Source → Source
unfolding normalize_field_coverage sanitize
sanitize_source s =
    let clean = record s {
      field_coverage = normalize_field_coverage s.field_coverage;
      errors = sanitize s.errors;
    } in
    if not s.enabled
    then record clean { coverage = missing; coverage_reason = "disabled" }
    else if not s.supported
    then record clean { coverage = unknown; coverage_reason = "unsupported" }
    else clean

abbrev pub has_kind_before : Source → Source → Bool
has_kind_before a b = str_lt a.kind b.kind

-- The sources of `Build`.
unfoldable pub build : List Source → List Source
unfolding sanitize_source sort
build sources = sort has_kind_before (map sanitize_source sources)
