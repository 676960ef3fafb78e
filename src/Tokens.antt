-- ===== src/Tokens.antt =====
-- internal/tokens/tokens.go: the difference of two readings of one native counter.
pub mod Laws
use codex_prompt_better.Base.{
  ℕ, ◌+◌, ◌-◌, ◌%◌, ◌^◌, String, Bool, not, ◌&&◌, ◌||◌, if◌then◌else◌, str_eq, ltb, leb, Option,
  none, some,
}

pub data DeltaState : Type 0 where
  unknown duplicate_or_out_of_order derived wrap reset : DeltaState

pub data Confidence : Type 0 where
  low medium high : Confidence

pub record Observation : Type 0 where
  pub counter_type : String
  pub unit : String
  pub value : ℕ  -- uint64
  pub sequence : ℕ  -- uint64
  pub source : String

pub record Delta : Type 0 where
  pub counter_type : String
  pub unit : String
  pub value : ℕ  -- uint64
  pub start : Observation
  pub end : Observation
  pub state : DeltaState
  pub confidence : Confidence
  pub algorithm_version : String

abbrev pub u64_mod : ℕ
u64_mod = 2 ^ 64

-- `start.CounterType == "" || ... || start.Source != end.Source`.
abbrev pub unlike : Observation → Observation → Bool
unlike start end =
    str_eq start.counter_type ""
    || not (str_eq start.counter_type end.counter_type)
    || str_eq start.unit ""
    || not (str_eq start.unit end.unit)
    || not (str_eq start.source end.source)

-- The result comes back beside the error, as in the code.
unfoldable pub derive : Observation → Observation → ℕ → Delta × Option String
derive start end wrap_at =
    let result : Delta = record {
      counter_type = end.counter_type;
      unit = end.unit;
      value = 0;
      start = start;
      end = end;
      state = unknown;
      confidence = low;
      algorithm_version = "counter-delta-v1";
    } in
    if unlike start end
    then (result, some "unlike counters cannot be combined")
    else if leb end.sequence start.sequence
    then (record result { state = duplicate_or_out_of_order }, none)
    else if leb start.value end.value
    then (
      record result { value = end.value - start.value; state = derived; confidence = high },
      none,
    )
    else if ltb 0 wrap_at && leb start.value wrap_at && leb end.value wrap_at
    then (
      record result {
        value = (wrap_at - start.value + end.value + 1) % u64_mod;
        state = wrap;
        confidence = medium;
      },
      none,
    )
    else (record result { state = reset; confidence = medium }, none)
