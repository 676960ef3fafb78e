-- ===== src/Normalize.antt =====
-- internal/normalize/ordering.go: which of several assertions about one field wins.
pub mod Order
pub mod Laws
use codex_prompt_better.Base.{
  ℕ, String, Bool, true, false, not, ◌&&◌, ◌||◌, if◌then◌else◌, str_eq, ltb, ◌==◌, List, [], ◌∷◌,
  keep, some_of,
}
use codex_prompt_better.Base.Sorting.{sort}

-- A signed number is only compared, so it is counted from the least one of its type; an instant is
-- counted in nanoseconds from an origin before all of them.
pub record Assertion : Type 0 where
  pub field : String
  pub value : String
  pub source_kind : String
  pub source_sequence : ℕ  -- uint64
  pub monotonic_nanos : ℕ  -- int64
  pub observed_at : ℕ
  pub precedence : ℕ  -- int

pub record Resolution : Type 0 where
  pub field : String
  pub value : String
  pub winning_source : String
  pub conflicts : List Assertion
  pub ordering_uncertain : Bool

-- The comparison that the code sorts by.
unfoldable pub ranks_before : Assertion → Assertion → Bool
ranks_before a b =
    if not (a.precedence == b.precedence)
    then ltb b.precedence a.precedence
    else if not (a.source_sequence == b.source_sequence)
    then ltb b.source_sequence a.source_sequence
    else if not (a.monotonic_nanos == b.monotonic_nanos)
    then ltb b.monotonic_nanos a.monotonic_nanos
    else ltb b.observed_at a.observed_at

-- The second test of the loop.
unfoldable pub same_rank : Assertion → Assertion → Bool
same_rank a b =
    a.precedence == b.precedence
    && a.source_sequence == b.source_sequence
    && a.monotonic_nanos == b.monotonic_nanos
    && a.observed_at == b.observed_at

abbrev pub differs : Assertion → Assertion → Bool
differs winner assertion = not (str_eq assertion.value winner.value)

-- The loop over `ordered[1:]`, for each of its three results; and the clearing of a conflicting tie.
unfoldable pub conclude : Assertion → List Assertion → Resolution
conclude winner rest =
    let conflicting_tie = some_of (λ a. same_rank a winner && differs winner a) rest in
    record {
      field = winner.field;
      value = if conflicting_tie then "" else winner.value;
      winning_source = if conflicting_tie then "" else winner.source_kind;
      conflicts = keep (differs winner) rest;
      ordering_uncertain = some_of (λ a. same_rank a winner) rest;
    }

unfoldable pub resolve_ordered : List Assertion → Resolution
resolve_ordered [] = record {
  field = "";
  value = "";
  winning_source = "";
  conflicts = [];
  ordering_uncertain = false;
}
resolve_ordered (winner ∷ rest) = conclude winner rest

unfoldable pub resolve : List Assertion → Resolution
resolve assertions = resolve_ordered (sort ranks_before assertions)
