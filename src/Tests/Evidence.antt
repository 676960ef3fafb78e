-- ===== src/Tests/Evidence.antt =====
-- Attributes of a Codex record with an alias, a plain value and fields that are redacted.
use codex_prompt_better.Base.{
  ℕ, ◌≡◌, refl, String, false, not, ◌&&◌, leb, ◌==◌, List, [], ◌∷◌, none, some, ok, All, map, keep,
}
use Prim.Native.Char.{code}
use codex_prompt_better.Base.Text.{str_lt}
use codex_prompt_better.Base.Sorting.{sort}
use codex_prompt_better.Base.Integers.{pos}
use codex_prompt_better.Base.Patterns.{Unicode, has_suffix, str_contains, to_lower, each_rune}
use codex_prompt_better.Contracts.{complete}
use codex_prompt_better.Evidence.Tables.{allowed_attributes}
use codex_prompt_better.Evidence.Sensitive.{secret_like}
use codex_prompt_better.Evidence.Record.{Record, Attributes, validate, parse_lineage}
use codex_prompt_better.Evidence.Sanitize.{sanitize}
use codex_prompt_better.Evidence.Laws.{IsClean, may_keep, disclosed, field_of, sanitize-IsSorted}
use codex_prompt_better.Evidence.Worth.{validate-sanitize, parse_lineage-call_path}

-- Texts that are small letters, digits and marks already.
abbrev pub small_ascii : Unicode
small_ascii = record {
  lower = λ c. c;
  is_letter = λ c. leb 97 (code c) && leb (code c) 122;
  is_digit = λ c. leb 48 (code c) && leb (code c) 57;
  is_space = λ c. code c == 32;
}

-- A keyed hash that forgets its text.
abbrev pub flat_mac : List ℕ → String → String
flat_mac key text = "0f"

abbrev pub a_key : List ℕ
a_key =
    1 ∷ 2 ∷ 3 ∷ 4 ∷ 5 ∷ 6 ∷ 7 ∷ 8 ∷ 9 ∷ 10 ∷ 11 ∷ 12 ∷ 13 ∷ 14 ∷ 15 ∷ 16 ∷ 17 ∷ 18 ∷ 19 ∷ 20 ∷ 21
    ∷ 22 ∷ 23 ∷ 24 ∷ 25 ∷ 26 ∷ 27 ∷ 28 ∷ 29 ∷ 30 ∷ 31 ∷ 32 ∷ []

abbrev pub some_attributes : Attributes
some_attributes =
    ("session_alias", "one") ∷ ("phase", "plan") ∷ ("note", "free") ∷ ("call_path", "direct") ∷ []

abbrev pub clean_attributes : Attributes
clean_attributes = ("session_alias", "0f") ∷ ("phase", "plan") ∷ []

abbrev redacted_names : List String
redacted_names = "call_path" ∷ "note" ∷ []

some_attributes-sanitize :
    sanitize small_ascii flat_mac "codex_jsonl" a_key some_attributes
    ≡ ok (clean_attributes, redacted_names)
unfolding sanitize allowed_attributes str_contains has_suffix to_lower each_rune sort
some_attributes-sanitize = refl

sanitize-IsSorted_example :
    All (IsClean small_ascii flat_mac "codex_jsonl" a_key) clean_attributes
    × (clean_attributes
        ≡ map
            (disclosed small_ascii flat_mac "codex_jsonl" a_key)
            (keep (may_keep small_ascii flat_mac "codex_jsonl" a_key) some_attributes))
    × (redacted_names
        ≡ sort str_lt (
            map (field_of small_ascii flat_mac "codex_jsonl" a_key) (
              keep
                (λ a. not (may_keep small_ascii flat_mac "codex_jsonl" a_key a))
                some_attributes)))
    × All
        (λ a. secret_like small_ascii a.1 ≡ false)
        (keep (may_keep small_ascii flat_mac "codex_jsonl" a_key) some_attributes)
sanitize-IsSorted_example =
    sanitize-IsSorted small_ascii flat_mac "codex_jsonl" a_key some_attributes clean_attributes
      redacted_names some_attributes-sanitize

abbrev a_record : Record
a_record = record {
  id = "a1";
  source_kind = "codex_jsonl";
  source_version = "1";
  sequence = 1;
  event_at = none;
  ingested_at = 7;
  observed_at = 7;
  monotonic_nanos = pos 0;
  classification = "internal";
  coverage = complete;
  coverage_reason = "";
  product_surface = "local";
  content_sha256 = "0f";
  redacted_fields = some redacted_names;
  attributes = some clean_attributes;
  late_revision = false;
  ordering_uncertain = false;
  governance_overhead = false;
  lineage = parse_lineage clean_attributes;
}

pub flat_mac-secret_like : secret_like small_ascii "0f" ≡ false
unfolding secret_like str_contains to_lower
flat_mac-secret_like = refl

validate-sanitize_example : validate small_ascii a_record ≡ ok tt
validate-sanitize_example =
    validate-sanitize small_ascii flat_mac "codex_jsonl" a_key (λ _. flat_mac-secret_like)
      some_attributes clean_attributes redacted_names a_record some_attributes-sanitize
      (record { id = refl; kind = refl; ingested = refl; observed = refl }) refl refl

parse_lineage-call_path_example : (parse_lineage clean_attributes).call_path ≡ ""
parse_lineage-call_path_example =
    parse_lineage-call_path small_ascii flat_mac "codex_jsonl" a_key some_attributes
      clean_attributes redacted_names (λ c _. refl) some_attributes-sanitize
