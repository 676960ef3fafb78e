-- ===== src/Lineage/Counts.antt =====
-- Each invocation accounts for the deliveries of its call that were let in, and for no other.
use codex_prompt_better.Base.{
  String, Bool, true, false, not, ◌&&◌, ◌||◌, if◌then◌else◌, str_eq, eq_iff, List, [], ◌∷◌, ◌++◌,
  Option, none, some, some_of, some_of-tally, tally, ltb, ◌+◌, each_of, ◌≡◌, refl, ◌∙◌, sym, arith,
  Bool-cases, Option-cases, inl, inr,
}
use mathlib.Core.List.{Perm}
use codex_prompt_better.Base.Integers.{ℤ, pos, int_lt}
use codex_prompt_better.Base.Sorting.{
  sort-perm, tally-sort, IsOrdered, IsStrictWeak, sort-IsOrdered,
}
use codex_prompt_better.Base.Text.{str_lt_asym, str_lt_weak}
use text.Mathlib.TextPositions.{eq_refl}
use codex_prompt_better.Lineage.{
  Event, Invocation, Progress, is_call, new_invocation, check_parent, count_event, update_call,
  step, run, start, by_id, correlate, append_unique,
}

abbrev pub find_call : String → List Invocation → Option Invocation
find_call id [] = none
find_call id (i ∷ is) = if is_call id i then some i else find_call id is

-- The entry of a call, from the deliveries alone (the latest first).
unfoldable pub call_of : String → List Event → Option Invocation
call_of id [] = none
call_of id (e ∷ es) =
    let earlier = call_of id es in
    if str_eq e.logical_call_id id
    then some (elim earlier [
      | none ↦ count_event e (new_invocation e)
      | some i ↦ count_event e (check_parent e i)
    ])
    else earlier

-- What updating the map does to the entry of a call.
abbrev updated : String → Event → Option Invocation → Option Invocation
updated id e found =
    if str_eq e.logical_call_id id
    then some (elim found [
      | none ↦ count_event e (new_invocation e)
      | some i ↦ count_event e (check_parent e i)
    ])
    else found

counted_call : (e : Event) (i : Invocation) → (count_event e i).logical_call_id ≡ i.logical_call_id
unfolding count_event
counted_call e i = refl

checked_call : (e : Event) (i : Invocation) → (check_parent e i).logical_call_id ≡ i.logical_call_id
unfolding check_parent
checked_call e i = ground arith

new_call : (e : Event) → (new_invocation e).logical_call_id ≡ e.logical_call_id
unfolding new_invocation
new_call e = refl

find_call-update_call :
    (id : String) (e : Event) (is : List Invocation)
    → find_call id (update_call e is) ≡ updated id e (find_call id is)
unfolding update_call
find_call-update_call id e [] = ground (arith, counted_call e (new_invocation e), new_call e)
find_call-update_call id e (i ∷ is) = ground (
  arith,
  counted_call e (check_parent e i),
  checked_call e i,
  eq_iff i.logical_call_id e.logical_call_id,
  eq_iff i.logical_call_id id,
  eq_iff e.logical_call_id id,
  find_call-update_call id e is,
)

step-call_of :
    (id : String) (e : Event) (p : Progress)
    → find_call id p.by_call ≡ call_of id p.seen
    → find_call id (step p e).by_call ≡ call_of id (step p e).seen
unfolding step call_of
step-call_of id e p h = ground (arith, find_call-update_call id e p.by_call)

run-call_of :
    (id : String) (events : List Event) (p : Progress)
    → find_call id p.by_call ≡ call_of id p.seen
    → find_call id (run p events).by_call ≡ call_of id (run p events).seen
unfolding run
run-call_of id [] p h = h
run-call_of id (e ∷ es) p h = run-call_of id es (step p e) (step-call_of id e p h)

-- The deliveries of one call, and what they add up to.
abbrev pub of_call : String → Event → Bool
of_call id e = str_eq e.logical_call_id id

abbrev larger : ℤ → ℤ → ℤ
larger a b = if int_lt a b then b else a

-- The highest attempt above 0.
unfoldable pub max_attempt : String → List Event → ℤ
max_attempt id [] = pos 0
max_attempt id (e ∷ es) =
    let rest = max_attempt id es in if of_call id e then larger rest e.attempt else rest

abbrev pub holds : String → List String → Bool
holds v vs = some_of (λ x. str_eq x v) vs

holds-++ : (v w : String) (vs : List String) → holds v (vs ++ w ∷ []) ≡ (holds v vs || str_eq w v)
holds-++ v w [] = ground arith
holds-++ v w (x ∷ vs) = ground (arith, holds-++ v w vs)

-- A value that is there already adds nothing.
holds-twice :
    (v w : String) (vs : List String)
    → some_of (λ x. str_eq x w) vs ≡ true
    → str_eq w v ≡ true
    → holds v vs ≡ true
holds-twice v w [] h k = absurd cc
holds-twice v w (x ∷ vs) h k =
    ground (arith, eq_iff x w, eq_iff w v, eq_iff x v, holds-twice v w vs)

holds-append_unique :
    (v w : String) (vs : List String) → holds v (append_unique vs w) ≡ (str_eq w v || holds v vs)
unfolding append_unique
holds-append_unique v w vs = ground (arith, holds-++ v w vs, holds-twice v w vs)

-- What an invocation says of the deliveries: the highest attempt, whether any has a result, whether
-- any is a late revision, which kinds and which sources they have; and, unless it has a parent
-- conflict, the one parent that all have.
pub record Accounts (id : String) (es : List Event) (i : Invocation) : Type 0 where
  pub attempts : i.attempts ≡ max_attempt id es
  pub result : i.has_result ≡ some_of (λ e. of_call id e && e.result) es
  pub revised : i.revised ≡ some_of (λ e. of_call id e && e.late_revision) es
  pub kinds : (v : String) → holds v i.kinds ≡ some_of (λ e. of_call id e && str_eq e.kind v) es
  pub sources :
      (v : String) → holds v i.sources ≡ some_of (λ e. of_call id e && str_eq e.source v) es
  pub one_parent :
      i.parent_conflict ≡ false
      → each_of (λ e. not (of_call id e) || str_eq e.parent_call_id i.parent_call_id) es ≡ true

-- A call with no entry has no delivery.
record Absent (id : String) (es : List Event) : Type 0 where
  none_of : some_of (of_call id) es ≡ false
  no_attempt : max_attempt id es ≡ pos 0
  no_result : some_of (λ e. of_call id e && e.result) es ≡ false
  no_revision : some_of (λ e. of_call id e && e.late_revision) es ≡ false
  no_kind : (v : String) → some_of (λ e. of_call id e && str_eq e.kind v) es ≡ false
  no_source : (v : String) → some_of (λ e. of_call id e && str_eq e.source v) es ≡ false

call_of-Absent : (id : String) (es : List Event) → call_of id es ≡ none → Absent id es
unfolding call_of max_attempt
call_of-Absent id [] h = record {
  none_of = refl;
  no_attempt = refl;
  no_result = refl;
  no_revision = refl;
  no_kind = λ v. refl;
  no_source = λ v. refl;
}
call_of-Absent id (e ∷ es) h = elim (Bool-cases (of_call id e)) [
  | inl here ↦ absurd (ground arith)
  | inr other ↦
      let rest = call_of-Absent id es (ground arith) in
      record {
        none_of = ground (arith, rest.none_of);
        no_attempt = ground (arith, rest.no_attempt);
        no_result = ground (arith, rest.no_result);
        no_revision = ground (arith, rest.no_revision);
        no_kind = λ v. ground (arith, rest.no_kind v);
        no_source = λ v. ground (arith, rest.no_source v);
      }
]

no_call-each :
    (id parent : String) (es : List Event)
    → some_of (of_call id) es ≡ false
    → each_of (λ e. not (of_call id e) || str_eq e.parent_call_id parent) es ≡ true
no_call-each id parent [] h = refl
no_call-each id parent (e ∷ es) h = ground (arith, no_call-each id parent es)

module _ (id : String) (e : Event) (es : List Event) (here : of_call id e ≡ true) where
  first-Accounts : Absent id es → Accounts id (e ∷ es) (count_event e (new_invocation e))
  unfolding max_attempt count_event new_invocation
  first-Accounts a = record {
    attempts = ground (arith, a.no_attempt);
    result = ground (arith, a.no_result);
    revised = ground (arith, a.no_revision);
    kinds = λ v. ground (arith, holds-append_unique v e.kind [], a.no_kind v);
    sources = λ v. ground (arith, holds-append_unique v e.source [], a.no_source v);
    one_parent = λ c.
        ground (arith, no_call-each id e.parent_call_id es a.none_of, eq_refl e.parent_call_id);
  }

  later-Accounts :
      (i : Invocation) → Accounts id es i → Accounts id (e ∷ es) (count_event e (check_parent e i))
  unfolding max_attempt count_event check_parent
  later-Accounts i a = record {
    attempts = ground (arith, a.attempts);
    result = ground (arith, a.result);
    revised = ground (arith, a.revised);
    kinds = λ v. ground (arith, holds-append_unique v e.kind i.kinds, a.kinds v);
    sources = λ v. ground (arith, holds-append_unique v e.source i.sources, a.sources v);
    one_parent = λ c. ground (
      arith,
      a.one_parent,
      eq_iff i.parent_call_id e.parent_call_id,
      eq_iff e.parent_call_id i.parent_call_id,
    );
  }

other-Accounts :
    (id : String) (e : Event) (es : List Event) (i : Invocation)
    → of_call id e ≡ false
    → Accounts id es i
    → Accounts id (e ∷ es) i
unfolding max_attempt
other-Accounts id e es i other a = record {
  attempts = ground (arith, a.attempts);
  result = ground (arith, a.result);
  revised = ground (arith, a.revised);
  kinds = λ v. ground (arith, a.kinds v);
  sources = λ v. ground (arith, a.sources v);
  one_parent = λ c. ground (arith, a.one_parent c);
}

call_of-Accounts :
    (id : String) (es : List Event) (i : Invocation) → call_of id es ≡ some i → Accounts id es i
unfolding call_of
call_of-Accounts id [] i h = cc
call_of-Accounts id (e ∷ es) i h = elim (Bool-cases (of_call id e)) [
  | inr other ↦ other-Accounts id e es i other (call_of-Accounts id es i (ground arith))
  | inl here ↦ elim (Option-cases (call_of id es)) [
    | inl absent ↦
        let made : i ≡ count_event e (new_invocation e) = ground arith in
        rw made (first-Accounts id e es here (call_of-Absent id es absent))
    | inr (j, found) ↦
        let made : i ≡ count_event e (check_parent e j) = ground arith in
        rw made (later-Accounts id e es here j (call_of-Accounts id es j found))
  ]
]

-- How many entries of a call an event makes of those there are: one more where there is none.
tally-update_call :
    (id : String) (e : Event) (is : List Invocation)
    → tally (is_call id) (update_call e is)
      ≡ tally (is_call id) is
        + (if some_of (is_call e.logical_call_id) is
            then 0
            else if str_eq e.logical_call_id id
            then 1
            else 0)
unfolding update_call
tally-update_call id e [] = ground (arith, counted_call e (new_invocation e), new_call e)
tally-update_call id e (i ∷ is) =
    ground (arith, counted_call e (check_parent e i), checked_call e i, tally-update_call id e is)

-- Each call that was delivered has one entry.
abbrev IsOnce : Progress → Type 0
IsOnce p =
    (id : String) → tally (is_call id) p.by_call ≡ (if some_of (of_call id) p.seen then 1 else 0)

step-IsOnce : (e : Event) (p : Progress) → IsOnce p → IsOnce (step p e)
unfolding step
step-IsOnce e p h id = ground (
  arith,
  h id,
  h e.logical_call_id,
  eq_iff e.logical_call_id id,
  tally-update_call id e p.by_call,
  some_of-tally (is_call e.logical_call_id) p.by_call,
)

run-IsOnce : (events : List Event) (p : Progress) → IsOnce p → IsOnce (run p events)
unfolding run
run-IsOnce [] p h = h
run-IsOnce (e ∷ es) p h = run-IsOnce es (step p e) (step-IsOnce e p h)

find_call-tally :
    (id : String) (is : List Invocation) (i : Invocation)
    → find_call id is ≡ some i
    → ltb 0 (tally (is_call id) is) ≡ true
find_call-tally id [] i h = absurd cc
find_call-tally id (j ∷ is) i h = elim (Bool-cases (is_call id j)) [
  | inl k ↦ ground (arith, k)
  | inr k ↦ let rest = find_call-tally id is i (ground arith) in ground (arith, rest)
]

by_id-weak : IsStrictWeak by_id
by_id-weak = record {
  asym = λ a b h. str_lt_asym a.logical_call_id b.logical_call_id h;
  weak = λ a b c h k. str_lt_weak a.logical_call_id b.logical_call_id c.logical_call_id h k;
}

-- Every invocation that correlation ends with is the only one of its call, and accounts for the
-- deliveries of its call that were let in: the highest attempt from 0, whether any has a result or is a late
-- revision, the kinds and the sources, as sets, and the parent, unless in conflict. The invocations
-- of the summary are those of the map, sorted by their calls.
pub correlate-Accounts :
    (events : List Event) (id : String) (i : Invocation)
    → find_call id (run start events).by_call ≡ some i
    → Accounts id (run start events).seen i
      × Perm (correlate events).invocations (run start events).by_call
      × IsOrdered by_id (correlate events).invocations
      × (tally (is_call id) (correlate events).invocations ≡ 1)
unfolding correlate call_of
correlate-Accounts events id i h =
    let entry = run-call_of id events start refl in
    let once = run-IsOnce events start (λ other. refl) id in
    (
      call_of-Accounts id (run start events).seen i (sym entry ∙ h),
      sort-perm by_id (run start events).by_call,
      sort-IsOrdered by_id-weak (run start events).by_call,
      tally-sort by_id (is_call id) (run start events).by_call
          ∙ ground (arith, once, find_call-tally id (run start events).by_call i h),
    )
