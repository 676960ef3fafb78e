-- ===== src/Tests/Adapters.antt =====
-- Three lines that decode to one source, read two and then one at a time.
use codex_prompt_better.Base.{
  ◌≡◌, ◌<◌, refl, String, true, false, List, [], ◌∷◌, ◌++◌, none, some, ok, length,
}
use codex_prompt_better.Base.Sorting.{sort}
use codex_prompt_better.Base.Integers.{pos}
use codex_prompt_better.Base.Patterns.{has_suffix, str_contains, to_lower, each_rune}
use codex_prompt_better.Base.Decimal.{format_uint}
use codex_prompt_better.Evidence.Tables.{allowed_attributes}
use codex_prompt_better.Evidence.Record.{lookup, is_empty}
use codex_prompt_better.Adapters.Jsonl.{Request, ParsedRecord, Collected, Codec, Jsonl}
use codex_prompt_better.Adapters.Collect.{is_rotated, collect_parsed, collect, parse_lines}
use codex_prompt_better.Adapters.Resumption.{
  IsSlice, collect_parsed-IsSlice, resumed, limited, collect_parsed-resumed,
}
use codex_prompt_better.Adapters.Progress.{IsReady, collect-progress}
use codex_prompt_better.Adapters.Sources.{SourceOptions, codex_jsonl, contract_collect}
use codex_prompt_better.Tests.Evidence.{small_ascii, flat_mac, a_key, flat_mac-secret_like}

abbrev a_codec : Codec
a_codec = record {
  decode = λ line. some (record {
    version = "1";
    observed_at = "";
    attributes = ("session_alias", "one") ∷ ("phase", line) ∷ [];
  });
  parse_time = λ text. none;
  encode = λ version time attributes. lookup attributes "phase";
  mac = flat_mac;
}

abbrev some_options : SourceOptions
some_options = record {
  has_data = true;
  lines = "plan" ∷ "work" ∷ "check" ∷ [];
  scan_failed = false;
  key = a_key;
  enabled = true;
  supported = true;
  purpose = "";
  identity = "";
}

abbrev a_source : Jsonl
a_source = record {
  kind = "codex_jsonl";
  has_data = true;
  lines = "plan" ∷ "work" ∷ "check" ∷ [];
  scan_failed = false;
  key = a_key;
  identity = "codex_jsonl";
  enabled = true;
  supported = true;
}

abbrev a_request : Request
a_request = record {
  cursor = 1;
  cursor_generation = "";
  cursor_digest = "0f";
  limit = pos 1;
  observed_at = 9;
  monotonic_nanos = pos 3;
}

abbrev a_parsed : String → ParsedRecord
a_parsed phase = record {
  version = "1";
  canonical = phase;
  observed_at = 9;
  event_at = none;
  attributes = ("session_alias", "0f") ∷ ("phase", phase) ∷ [];
  redacted = [];
}

abbrev three : List ParsedRecord
three = a_parsed "plan" ∷ a_parsed "work" ∷ a_parsed "check" ∷ []

three-parse_lines :
    parse_lines small_ascii a_codec a_source a_request (λ _. false) 0 a_source.lines ≡ ok three
unfolding parse_lines allowed_attributes str_contains has_suffix to_lower each_rune sort lookup
three-parse_lines = refl

three-is_rotated : is_rotated small_ascii a_codec a_source a_request three ≡ false
unfolding is_rotated
three-is_rotated = refl

abbrev answer : Request → Collected
answer request = (collect_parsed small_ascii a_codec a_source request three).0

abbrev first : Collected
first = answer a_request

-- The second record, and the cursor behind it.
first-run : (length first.records ≡ 1) × (first.next_cursor ≡ 2)
unfolding collect_parsed format_uint lookup str_contains to_lower
first-run = (refl, refl)

first-collect : collect_parsed small_ascii a_codec a_source a_request three ≡ (first, none)
unfolding collect_parsed format_uint lookup str_contains to_lower
first-collect = refl

collect_parsed-IsSlice_example : IsSlice small_ascii a_codec a_source a_request 1 three first
collect_parsed-IsSlice_example =
    collect_parsed-IsSlice small_ascii a_codec a_source a_request 0 three first refl
      three-is_rotated first-collect

abbrev second_request : Request
second_request = resumed small_ascii a_codec a_source a_request first 1

abbrev whole_request : Request
whole_request = limited small_ascii a_codec a_source a_request 2

second-collect :
    collect_parsed small_ascii a_codec a_source second_request three ≡ (answer second_request, none)
unfolding collect_parsed format_uint lookup str_contains to_lower
second-collect = refl

whole-collect :
    collect_parsed small_ascii a_codec a_source whole_request three ≡ (answer whole_request, none)
unfolding collect_parsed format_uint lookup str_contains to_lower
whole-collect = refl

first-named : is_empty first.generation ≡ false
unfolding collect_parsed
first-named = refl

collect_parsed-resumed_example :
    ((answer whole_request).records ≡ first.records ++ (answer second_request).records)
    × ((answer whole_request).next_cursor ≡ (answer second_request).next_cursor)
    × ((answer whole_request).cursor_digest ≡ (answer second_request).cursor_digest)
collect_parsed-resumed_example =
    collect_parsed-resumed small_ascii a_codec a_source a_request 0 0 three first
      (answer second_request) (answer whole_request) refl three-is_rotated first-named first-collect
      second-collect whole-collect

a_source-IsReady : IsReady small_ascii a_codec a_source a_request
a_source-IsReady = record {
  keeps = λ c _. refl;
  long = refl;
  named = λ _. refl;
  hex = λ _. flat_mac-secret_like;
  kind = refl;
  clock = refl;
}

collect-progress_example :
    (end : Collected) × (collect small_ascii a_codec a_source a_request (λ _. false) ≡ (end, none))
    × (is_rotated small_ascii a_codec a_source a_request three ≡ false
        → 1 < length three
        → 1 < end.next_cursor)
collect-progress_example =
    collect-progress small_ascii a_codec a_source a_request a_source-IsReady (λ _. false) 0 three
      refl refl refl refl three-parse_lines (refl, (refl, (refl, tt)))

abbrev collected : Collected
collected =
    (contract_collect small_ascii a_codec (codex_jsonl some_options) a_request (λ _. false)).0

some_options-collect :
    contract_collect small_ascii a_codec (codex_jsonl some_options) a_request (λ _. false)
    ≡ (collected, none)
unfolding contract_collect parse_lines collect_parsed allowed_attributes str_contains has_suffix
    to_lower each_rune sort lookup format_uint
some_options-collect = refl
