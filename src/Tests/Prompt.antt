-- ===== src/Tests/Prompt.antt =====
-- A prompt with two opposing directives.
use codex_prompt_better.Base.{◌≡◌, refl, String, Bool, true, false, ok, [], ◌∷◌, str_eq, map}
use codex_prompt_better.Prompt.Lines.{normalize}
use codex_prompt_better.Prompt.Lint.{LintRequest, check_prompt, diagnose}
use codex_prompt_better.Prompt.Laws.{IsChecked, check_prompt-IsChecked}
use codex_prompt_better.Tests.Evidence.{small_ascii}

abbrev request : LintRequest
request = record {
  schema_version = "1.0.0";
  kind = "request";
  candidate = "Goal:\r\n- never retry  \n\n\n\n- always retry";
}

-- No regular expression matches.
abbrev no_match : String → String → Bool
no_match pattern text = false

normalize-run :
    normalize small_ascii (λ s. true) request.candidate
    ≡ ok "Goal:\n- never retry\n\n- always retry"
unfolding normalize
normalize-run = refl

diagnose-run :
    map {B = String × String}
      (λ d. (d.code, d.location))
      (diagnose small_ascii no_match str_eq "goal:\n- never retry\n\n- always retry")
    ≡ ("missing-success", "document")
      ∷ ("missing-evidence", "document")
      ∷ ("missing-validation", "document")
      ∷ ("missing-stop", "document")
      ∷ ("missing-authorization", "document")
      ∷ ("contradictory-instructions", "line 4")
      ∷ []
unfolding diagnose
diagnose-run = refl

check_prompt-IsChecked_example :
    IsChecked small_ascii no_match str_eq
      (λ s. true)
      request
      (check_prompt small_ascii no_match str_eq (λ s. true) request)
check_prompt-IsChecked_example =
    check_prompt-IsChecked small_ascii no_match str_eq (λ s. true) request
