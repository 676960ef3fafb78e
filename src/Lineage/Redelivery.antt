-- ===== src/Lineage/Redelivery.antt =====
-- A delivery that was let in before changes nothing.
use codex_prompt_better.Base.{
  Bool, true, ◌&&◌, eq_iff, List, [], ◌∷◌, ◌++◌, some_of, ◌≡◌, refl, ◌∙◌, ap, arith, Bool-cases,
  inl, inr, sym,
}
use codex_prompt_better.Lineage.{
  Event, Progress, identity, same_delivery, is_usable, step, run, start, summarize, correlate,
}

-- The event, or one delivered as the same, was let in.
abbrev Seen : Event → Progress → Type 0
Seen d p = some_of (same_delivery d) p.seen ≡ true

-- A usable event, delivered before among these.
abbrev pub delivered_in : List Event → Event → Bool
delivered_in events d = some_of (λ e. is_usable e && same_delivery d e) events

same_delivery_trans :
    (d e f : Event) → same_delivery d e ≡ true → same_delivery e f ≡ true → same_delivery d f ≡ true
same_delivery_trans d e f h k = ground (
  arith,
  eq_iff (identity d) (identity e),
  eq_iff (identity e) (identity f),
  eq_iff (identity d) (identity f),
)

seen_trans :
    (d e : Event) (fs : List Event)
    → same_delivery d e ≡ true
    → some_of (same_delivery e) fs ≡ true
    → some_of (same_delivery d) fs ≡ true
seen_trans d e [] h k = cc
seen_trans d e (f ∷ fs) h k = ground (arith, same_delivery_trans d e f h, seen_trans d e fs h)

step-Seen : (d e : Event) (p : Progress) → Seen d p → Seen d (step p e)
unfolding step
step-Seen d e p h = ground arith

run-Seen : (d : Event) (events : List Event) (p : Progress) → Seen d p → Seen d (run p events)
unfolding run
run-Seen d [] p h = h
run-Seen d (e ∷ es) p h = run-Seen d es (step p e) (step-Seen d e p h)

step-lets_in :
    (d e : Event) (p : Progress) → is_usable e ≡ true → same_delivery d e ≡ true → Seen d (step p e)
unfolding step
step-lets_in d e p u h = ground (arith, seen_trans d e p.seen h)

delivered-Seen :
    (d : Event) (events : List Event) (p : Progress)
    → delivered_in events d ≡ true
    → Seen d (run p events)
unfolding run
delivered-Seen d [] p h = cc
delivered-Seen d (e ∷ es) p h = elim (Bool-cases (is_usable e && same_delivery d e)) [
  | inl now ↦ run-Seen d es (step p e) (step-lets_in d e p (ground arith) (ground arith))
  | inr later ↦ delivered-Seen d es (step p e) (ground arith)
]

step_of_Seen : (d : Event) (p : Progress) → Seen d p → step p d ≡ p
unfolding step
step_of_Seen d p h = ground arith

run-append : (p : Progress) (xs ys : List Event) → run p (xs ++ ys) ≡ run (run p xs) ys
unfolding run
run-append p [] ys = refl
run-append p (x ∷ xs) ys = run-append (step p x) xs ys

-- An event with the source and the id of a usable event that was delivered before, whatever else it
-- says and wherever it arrives, leaves the whole summary as it is.
pub correlate-redelivery :
    (before after : List Event) (d : Event)
    → delivered_in before d ≡ true
    → correlate (before ++ d ∷ after) ≡ correlate (before ++ after)
unfolding correlate
correlate-redelivery before after d h =
    ap (λ (p : Progress). summarize p.by_call)
      (run-append start before (d ∷ after) ∙ run_again ∙ sym (run-append start before after))
  where
    run_again : run (run start before) (d ∷ after) ≡ run (run start before) after
    run_again =
        ap (λ (q : Progress). run q after)
          (step_of_Seen d (run start before) (delivered-Seen d before start h))
