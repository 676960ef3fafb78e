-- ===== src/Lineage.antt =====
-- internal/lineage/lineage.go: logical invocations, counted once however often they are delivered.
pub mod Redelivery
pub mod Counts
use codex_prompt_better.Base.{
  ℕ, suc, ◌+◌, String, Bool, true, false, not, ◌&&◌, ◌||◌, if◌then◌else◌, str_eq, List, [], ◌∷◌,
  ◌++◌, Option, none, some, some_of, keep, length,
}
use Prim.Native.String.{◌++◌ as append}
use codex_prompt_better.Base.Integers.{ℤ, pos, int_lt}
use codex_prompt_better.Base.Text.{str_lt}
use codex_prompt_better.Base.Sorting.{sort}

pub record Event : Type 0 where
  pub source : String
  pub source_event_id : String
  pub logical_call_id : String
  pub parent_call_id : String
  pub kind : String
  pub role : String
  pub attempt : ℤ
  pub result : Bool
  pub late_revision : Bool

pub record Invocation : Type 0 where
  pub logical_call_id : String
  pub parent_call_id : String
  pub kinds : List String
  pub sources : List String
  pub attempts : ℤ
  pub has_result : Bool
  pub revised : Bool
  pub parent_conflict : Bool

pub record Summary : Type 0 where
  pub invocations : List Invocation
  pub host_count : ℕ
  pub leaf_count : ℕ

unfoldable pub append_unique : List String → String → List String
append_unique values value =
    if some_of (λ existing. str_eq existing value) values then values else values ++ value ∷ []

abbrev pub identity : Event → String
identity event = append event.source (append "\0" event.source_event_id)

abbrev pub same_delivery : Event → Event → Bool
same_delivery a b = str_eq (identity a) (identity b)

abbrev pub is_usable : Event → Bool
is_usable event = not (str_eq event.logical_call_id "" || str_eq event.source_event_id "")

-- The variables of the loop: the map `byCall`, keyed by the logical call, and the set `seen`, as the
-- events that were let in.
pub record Progress : Type 0 where
  pub by_call : List Invocation
  pub seen : List Event

-- A new entry of the map, before the event is counted into it.
unfoldable pub new_invocation : Event → Invocation
new_invocation event = record {
  logical_call_id = event.logical_call_id;
  parent_call_id = event.parent_call_id;
  kinds = [];
  sources = [];
  attempts = pos 0;
  has_result = false;
  revised = false;
  parent_conflict = false;
}

-- An entry that is there already: a second parent is a conflict.
unfoldable pub check_parent : Event → Invocation → Invocation
check_parent event invocation =
    if str_eq invocation.parent_call_id event.parent_call_id
    then invocation
    else record invocation { parent_call_id = ""; parent_conflict = true }

-- The statements behind the lookup.
unfoldable pub count_event : Event → Invocation → Invocation
count_event event invocation = record invocation {
  kinds = append_unique invocation.kinds event.kind;
  sources = append_unique invocation.sources event.source;
  attempts =
      if int_lt invocation.attempts event.attempt then event.attempt else invocation.attempts;
  has_result = invocation.has_result || event.result;
  revised = invocation.revised || event.late_revision;
}

abbrev pub is_call : String → Invocation → Bool
is_call id invocation = str_eq invocation.logical_call_id id

-- The event is counted into its entry of the map, a new one where there is none.
unfoldable pub update_call : Event → List Invocation → List Invocation
update_call event [] = count_event event (new_invocation event) ∷ []
update_call event (invocation ∷ rest) =
    if is_call event.logical_call_id invocation
    then count_event event (check_parent event invocation) ∷ rest
    else invocation ∷ update_call event rest

-- One round of the loop over the events.
unfoldable pub step : Progress → Event → Progress
step p event =
    if not (is_usable event)
    then p
    else if some_of (same_delivery event) p.seen
    then p
    else record { by_call = update_call event p.by_call; seen = event ∷ p.seen }

unfoldable pub run : Progress → List Event → Progress
run p [] = p
run p (event ∷ events) = run (step p event) events

abbrev pub start : Progress
start = record { by_call = []; seen = [] }

-- `children[id]`: some invocation has the call for its parent.
abbrev pub has_child : List Invocation → String → Bool
has_child by_call id =
    some_of (λ i. not (str_eq i.parent_call_id "") && str_eq i.parent_call_id id) by_call

abbrev pub is_host : Invocation → Bool
is_host invocation = str_eq invocation.parent_call_id ""

abbrev pub by_id : Invocation → Invocation → Bool
by_id a b = str_lt a.logical_call_id b.logical_call_id

-- The loop over the map, and the sort; the ids are unique, so the order of the map does not show.
unfoldable pub summarize : List Invocation → Summary
unfolding sort
summarize by_call = record {
  invocations = sort by_id by_call;
  host_count = length (keep is_host by_call);
  leaf_count = length (keep (λ i. not (has_child by_call i.logical_call_id)) by_call);
}

unfoldable pub correlate : List Event → Summary
unfolding run step summarize
correlate events = summarize (run start events).by_call
