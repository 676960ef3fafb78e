-- ===== src/Tests/Status.antt =====
-- A disabled source whose error is not of an allowed code.
use codex_prompt_better.Base.{[], ◌∷◌, All, true, false}
use codex_prompt_better.Base.Sorting.{IsOrdered}
use codex_prompt_better.Contracts.{complete}
use codex_prompt_better.Status.{Source, has_kind_before, build}
use codex_prompt_better.Status.Laws.{IsSanitized, build-IsSanitized}

abbrev pub a_source : Source
a_source = record {
  kind = "git";
  enabled = false;
  supported = true;
  coverage = complete;
  coverage_reason = "";
  field_coverage = λ family. complete;
  errors = "/private/user" ∷ "offline" ∷ [];
}

build-IsSanitized_example :
    All IsSanitized (build (a_source ∷ [])) × IsOrdered has_kind_before (build (a_source ∷ []))
build-IsSanitized_example = build-IsSanitized (a_source ∷ [])
