-- ===== src/Adapters/Jsonl.antt =====
-- internal/adapters/adapter.go: `JSONL.Collect`. A map or slice as in Evidence/Record.antt. What
-- the file's lines decode to, times and digests are parameters.
use codex_prompt_better.Base.{ℕ, String, Bool, ◌||◌, if◌then◌else◌, str_eq, List, [], Option}
use codex_prompt_better.Base.Integers.{ℤ}
use codex_prompt_better.Contracts.{CoverageState, partial}
use codex_prompt_better.Evidence.Record.{Record, Attributes, EvidenceError}

pub record Request : Type 0 where
  pub cursor : ℕ
  pub cursor_generation : String
  pub cursor_digest : String
  pub limit : ℤ
  pub observed_at : ℕ
  pub monotonic_nanos : ℤ

-- What a line of the file decodes to.
pub record Source : Type 0 where
  pub version : String
  pub observed_at : String
  pub attributes : Attributes

pub record ParsedRecord : Type 0 where
  pub version : String
  pub canonical : String
  pub observed_at : ℕ
  pub event_at : Option ℕ
  pub attributes : Attributes
  pub redacted : List String

pub record Collected : Type 0 where
  pub records : List Record
  pub next_cursor : ℕ
  pub generation : String
  pub cursor_digest : String
  pub coverage : CoverageState
  pub reason : String

pub data CollectError : Type 0 where
  disabled unsupported malformed truncated cancelled : CollectError
  refused : EvidenceError → CollectError

-- Go returns a result together with an error or none.
abbrev pub Answer : Type 0
Answer = Collected × Option CollectError

-- The calls of other code: decoding and encoding of JSON, parsing of times, keyed digests in
-- hexadecimal digits, each of the text that the code writes.
pub record Codec : Type 0 where
  pub decode : String → Option Source
  pub parse_time : String → Option ℕ
  pub encode : String → String → Attributes → String
  pub mac : List ℕ → String → String

-- A `JSONL` with its data as `bufio.Scanner` gives them: the lines before the end or before a
-- failure, and whether there was one. `has_data` is false for a file of no bytes.
pub record Jsonl : Type 0 where
  pub kind : String
  pub has_data : Bool
  pub lines : List String
  pub scan_failed : Bool
  pub key : List ℕ
  pub identity : String
  pub enabled : Bool
  pub supported : Bool

abbrev pub unavailable : CoverageState → String → Collected
unavailable coverage reason = record {
  records = [];
  next_cursor = 0;
  generation = "";
  cursor_digest = "";
  coverage = coverage;
  reason = reason;
}

abbrev pub partial_result : Collected → String → Collected
partial_result r reason = record r { coverage = partial; reason = reason }

unfoldable pub surface : String → String
surface kind =
    if str_eq kind "github"
    then "local"
    else if str_eq kind "codex_jsonl"
        || str_eq kind "codex_state_sqlite"
        || str_eq kind "rollout_summary"
    then "codex_subscription"
    else "local"
