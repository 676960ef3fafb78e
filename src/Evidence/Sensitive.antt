-- ===== src/Evidence/Sensitive.antt =====
-- `sensitiveKey`, `secretLike`, `safeMetadataValue`, `keyedAttribute` and `aliasDomain`.
use Prim.Native.String.{len, ◌++◌ as append}
use Prim.Native.Char.{Char, code}
use codex_prompt_better.Base.{
  String, Bool, false, ◌||◌, ◌==◌, if◌then◌else◌, str_eq, ltb, List, [], ◌∷◌, some_of,
}
use codex_prompt_better.Base.Patterns.{
  Unicode, has_prefix, has_suffix, str_contains, to_lower, each_rune,
}

abbrev pub sensitive_fragments : List String
sensitive_fragments =
    "prompt" ∷ "response_body" ∷ "reasoning" ∷ "payload" ∷ "program_body" ∷ "database_row"
    ∷ "token_value" ∷ "secret" ∷ "username" ∷ "host_path" ∷ "safety_identifier" ∷ "authorization"
    ∷ "cookie" ∷ "cwd" ∷ "path" ∷ "content" ∷ "text" ∷ "user" ∷ []

unfoldable pub keyed_attribute : String → Bool
unfolding has_suffix str_contains
keyed_attribute field =
    has_suffix field "_alias"
    || str_contains field "lineage"
    || has_suffix field "_parent"
    || str_eq field "canonical_call"
    || str_eq field "state_epoch"

unfoldable pub alias_domain : String → String → String
alias_domain kind field =
    if str_eq field "session_alias" || str_eq field "thread_alias"
    then "session"
    else if str_eq field "trajectory_alias" || str_eq field "delegation_parent"
    then "trajectory"
    else if str_eq field "task_alias"
    then "task"
    else if str_eq field "response_lineage" || str_eq field "parent_response_alias"
    then "response"
    else if str_eq field "tool_call_alias" || str_eq field "caller_alias"
    then "tool_call"
    else if str_eq field "canonical_call"
    then "canonical_call"
    else if str_eq field "state_epoch"
    then "state_epoch"
    else append kind (append ":" field)

-- One of `._:+-`.
abbrev pub is_mark : Char → Bool
is_mark c = code c == 46 || code c == 95 || code c == 58 || code c == 43 || code c == 45

module _ (unicode : Unicode) where
  unfoldable pub sensitive_key : String → Bool
  unfolding to_lower str_contains
  sensitive_key key = some_of (str_contains (to_lower unicode.lower key)) sensitive_fragments

  unfoldable pub secret_like : String → Bool
  unfolding to_lower str_contains
  secret_like value =
      let lower = to_lower unicode.lower value in
      str_contains lower "-----begin private key-----"
      || has_prefix lower "ghp_"
      || has_prefix lower "sk-"
      || str_contains lower "op://"
      || has_prefix lower "github_pat_"
      || has_prefix lower "eyj"

  -- `len` counts bytes.
  unfoldable pub safe_metadata_value : String → Bool
  unfolding each_rune
  safe_metadata_value value =
      if str_eq value "" || ltb 128 (len value)
      then false
      else each_rune (λ c. unicode.is_letter c || unicode.is_digit c || is_mark c) value

  -- `strings.TrimSpace(value) == ""`.
  unfoldable pub blank : String → Bool
  unfolding each_rune
  blank value = each_rune unicode.is_space value
