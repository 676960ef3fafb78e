-- ===== src/Evidence/Sanitize.antt =====
-- `Sanitize`: a strict choice of attributes, with aliases keyed.
use codex_prompt_better.Base.{
  ℕ, String, not, ◌||◌, if◌then◌else◌, List, [], ◌∷◌, Option, none, some, Result, ok, err, ◌>>=◌,
}
use codex_prompt_better.Base.Text.{str_lt}
use codex_prompt_better.Base.Sorting.{sort}
use codex_prompt_better.Base.Patterns.{Unicode}
use codex_prompt_better.Evidence.Tables.{allowed}
use codex_prompt_better.Evidence.Sensitive.{
  sensitive_key, secret_like, keyed_attribute, blank, safe_metadata_value, alias_domain,
}
use codex_prompt_better.Evidence.Record.{Attributes, EvidenceError, sensitive, opaque_id}

abbrev pub Sorted : Type 0
Sorted = Attributes × List String

-- The entry goes to `clean`, or its field to `redacted`.
abbrev pub put : String → Option String → Sorted → Sorted
put field (some value) (clean, redacted) = ((field, value) ∷ clean, redacted)
put field none (clean, redacted) = (clean, field ∷ redacted)

module _ (unicode : Unicode) (mac : List ℕ → String → String) (kind : String) (key : List ℕ) where
  unfoldable pub keyed_value : String → String → Result EvidenceError (Option String)
  unfolding blank opaque_id alias_domain
  keyed_value field value =
      if blank unicode value
      then ok (some "")
      else opaque_id mac key (alias_domain kind field ∷ value ∷ []) >>= λ opaque. ok (some opaque)

  -- The body of the loop: the value kept, or `none` for a redacted field.
  unfoldable pub sanitize_field : String → String → Result EvidenceError (Option String)
  unfolding sensitive_key secret_like keyed_attribute keyed_value safe_metadata_value
  sanitize_field field value =
      if not (allowed kind field) || sensitive_key unicode field
      then ok none
      else if secret_like unicode value
      then err sensitive
      else if keyed_attribute field
      then keyed_value field value
      else if not (safe_metadata_value unicode value)
      then err sensitive
      else ok (some value)

  unfoldable pub sanitize_each : Attributes → Result EvidenceError Sorted
  unfolding sanitize_field
  sanitize_each [] = ok ([], [])
  sanitize_each ((field, value) ∷ attributes) = sanitize_field field value >>= λ kept.
      sanitize_each attributes >>= λ rest. ok (put field kept rest)

  unfoldable pub sanitize : Attributes → Result EvidenceError Sorted
  unfolding sanitize_each sort
  sanitize attributes = sanitize_each attributes >>= λ both. ok (both.0, sort str_lt both.1)
