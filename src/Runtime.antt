-- ===== src/Runtime.antt =====
-- internal/runtime/runtime.go: the time that a set of intervals covers, and the tokens of outputs.
pub mod Union
pub mod TextTokens
use codex_prompt_better.Base.{
  ℕ, ◌+◌, ◌-◌, ◌%◌, ◌^◌, String, Bool, true, false, not, ◌&&◌, ◌||◌, if◌then◌else◌, str_eq, ltb,
  Option, none, some, List, [], ◌∷◌, keep, min,
}
use codex_prompt_better.Base.Sorting.{sort}

-- A `time.Time` is the number of nanoseconds since an origin before all of them.
pub record Interval : Type 0 where
  pub start : ℕ
  pub end : ℕ
  pub class : String

abbrev pub max_duration : ℕ
max_duration = 2 ^ 63 - 1

-- `end.Sub(start)` for `start ≤ end`, which saturates, and `+` on durations, which wraps. A
-- duration is its pattern of 64 bits, the number itself where it is not negative.
unfoldable pub sub_time : ℕ → ℕ → ℕ
sub_time end start = min (end - start) max_duration

unfoldable pub add_duration : ℕ → ℕ → ℕ
add_duration a b = (a + b) % 2 ^ 64

abbrev pub starts_before : Interval → Interval → Bool
starts_before a b = ltb a.start b.start

-- `included[interval.Class] && interval.End.After(interval.Start)`; the map is a function.
abbrev pub selects : (String → Bool) → Interval → Bool
selects included interval = included interval.class && ltb interval.start interval.end

-- The loop over `selected[1:]`, and the return behind it.
unfoldable pub sweep : ℕ → ℕ → ℕ → List Interval → ℕ
unfolding sub_time add_duration
sweep start end total [] = add_duration total (sub_time end start)
sweep start end total (interval ∷ rest) = elim (ltb end interval.start) [
  | true ↦ sweep interval.start interval.end (add_duration total (sub_time end start)) rest
  | false ↦ sweep start (if ltb end interval.end then interval.end else end) total rest
]

unfoldable pub sweep_all : List Interval → ℕ
unfolding sweep
sweep_all [] = 0
sweep_all (first ∷ rest) = sweep first.start first.end 0 rest

unfoldable pub union_duration : List Interval → (String → Bool) → ℕ
unfolding sweep_all sort
union_duration intervals included =
    sweep_all (sort starts_before (keep (selects included) intervals))

pub record Output : Type 0 where
  pub modality : String
  pub bytes : ℕ
  pub tokens : Option ℕ

abbrev pub max_u64 : ℕ
max_u64 = 2 ^ 64 - 1

abbrev pub is_counted : Output → Bool
is_counted output = str_eq output.modality "text" || str_eq output.modality "context"

-- The body of the loop of `TextTokens` for an output with tokens to add; `rest` is the loop's rest.
text_loop : ℕ → Bool → List Output → ℕ × Bool
text_loop total known [] = (total, known)
text_loop total known (output ∷ rest) = elim (is_counted output) [
  | false ↦ text_loop total known rest
  | true ↦ elim output.tokens [
    | none ↦ text_loop total false rest
    | some n ↦ elim (ltb (max_u64 - total) n) [
      | true ↦ (0, false)
      | false ↦ text_loop (total + n) known rest
    ]
  ]
]

unfoldable pub text_tokens : List Output → ℕ × Bool
unfolding text_loop
text_tokens outputs = text_loop 0 true outputs
