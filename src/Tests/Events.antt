-- ===== src/Tests/Events.antt =====
-- Deliveries, intervals and outputs on concrete inputs.
use mathlib.Core.List.{Perm}
use codex_prompt_better.Base.{
  ℕ, ◌≡◌, refl, String, Bool, true, false, List, [], ◌∷◌, some, none, keep, leb, tally, each_of,
  if◌then◌else◌, arith,
}
use codex_prompt_better.Lineage.{
  Event, Invocation, step, run, start, correlate, append_unique, update_call, count_event,
  check_parent, new_invocation, by_id, is_call,
}
use codex_prompt_better.Base.Integers.{pos}
use codex_prompt_better.Base.Sorting.{IsOrdered}
use codex_prompt_better.Lineage.Redelivery.{correlate-redelivery}
use codex_prompt_better.Lineage.Counts.{find_call, Accounts, correlate-Accounts}
use codex_prompt_better.Runtime.{Interval, selects, union_duration, Output, text_tokens, max_u64}
use codex_prompt_better.Runtime.Union.{count_below, covered, union_duration-count}
use codex_prompt_better.Runtime.TextTokens.{known_sum, is_known, text_tokens-sum}

abbrev pub event : String → String → String → ℕ → Bool → Event
event id call parent attempt result = record {
  source = "codex";
  source_event_id = id;
  logical_call_id = call;
  parent_call_id = parent;
  kind = "tool";
  role = "assistant";
  attempt = pos attempt;
  result = result;
  late_revision = false;
}

abbrev pub first_event : Event
first_event = event "e1" "call" "host" 1 false

abbrev pub second_event : Event
second_event = event "e2" "call" "host" 2 true

abbrev pub other_event : Event
other_event = event "e3" "host" "" 1 true

correlate-redelivery_example :
    correlate (first_event ∷ other_event ∷ first_event ∷ second_event ∷ [])
    ≡ correlate (first_event ∷ other_event ∷ second_event ∷ [])
correlate-redelivery_example =
    correlate-redelivery (first_event ∷ other_event ∷ []) (second_event ∷ []) first_event refl

-- The entry of "call" behind two deliveries.
abbrev pub call_entry : Invocation
call_entry = record {
  logical_call_id = "call";
  parent_call_id = "host";
  kinds = "tool" ∷ [];
  sources = "codex" ∷ [];
  attempts = pos 2;
  has_result = true;
  revised = false;
  parent_conflict = false;
}

abbrev pub deliveries : List Event
deliveries = first_event ∷ other_event ∷ second_event ∷ []

call_entry_found : find_call "call" (run start deliveries).by_call ≡ some call_entry
unfolding run step update_call count_event check_parent new_invocation append_unique
call_entry_found = refl

correlate-Accounts_example :
    Accounts "call" (run start deliveries).seen call_entry
    × Perm (correlate deliveries).invocations (run start deliveries).by_call
    × IsOrdered by_id (correlate deliveries).invocations
    × (tally (is_call "call") (correlate deliveries).invocations ≡ 1)
correlate-Accounts_example = correlate-Accounts deliveries "call" call_entry call_entry_found

abbrev pub intervals : List Interval
intervals =
    record { start = 5; end = 9; class = "tool" }
    ∷ record { start = 1; end = 6; class = "tool" }
    ∷ record { start = 12; end = 15; class = "model" }
    ∷ []

union_duration_run : union_duration intervals (λ class. true) ≡ 11
unfolding union_duration
union_duration_run = refl

union_duration-count_example :
    union_duration intervals (λ class. true)
    ≡ count_below 20 (covered (keep (selects (λ class. true)) intervals))
union_duration-count_example =
    union_duration-count 20 intervals (λ class. true) (omega arith)
      (omega arith, (omega arith, (omega arith, tt)))

abbrev pub outputs : List Output
outputs =
    record { modality = "text"; bytes = 9; tokens = some 3 }
    ∷ record { modality = "image"; bytes = 9; tokens = none }
    ∷ record { modality = "context"; bytes = 9; tokens = some 4 }
    ∷ []

text_tokens-sum_example : text_tokens outputs ≡ (
    if leb (known_sum outputs) max_u64
    then (known_sum outputs, each_of is_known outputs)
    else (0, false))
text_tokens-sum_example = text_tokens-sum outputs
