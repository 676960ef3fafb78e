-- ===== src/Recommendation/Laws.antt =====
-- What is proposed, how much of it, and what is never proposed.
use codex_prompt_better.Base.{
  ◌+◌, ◌≤◌, ◌≡◌, ◌≢◌, refl, ◌∙◌, ap, Bool, true, false, not, ◌&&◌, ◌||◌, if◌then◌else◌, eq_iff,
  ◌==◌, min, List, [], ◌∷◌, ◌++◌, none, some, length, length-append, arith, All, All-append, tally,
  ◌⊎◌, inl, inr, Bool-cases, Option-cases,
}
use codex_prompt_better.Base.Integers.{ℤ}
use codex_prompt_better.Base.Sorting.{sort, All-sort, tally-sort}
use codex_prompt_better.Contracts.{is_complete}
use codex_prompt_better.Diagnosis.{
  Finding, has_code_before, Observation, classify, finding_of, evaluate_one, evaluate_each,
  evaluate,
}
use codex_prompt_better.Recommendation.{
  Context, Recommendation, preview, no_action, candidate, skipped, generate_loop, generate,
  or_no_action,
}

abbrev pub is_actionable : Context → Finding → Bool
is_actionable context f =
    not (skipped context f) && elim (candidate f) [ none ↦ false | some r ↦ true ]

-- The recommendation is made of a finding of this kind, which is neither necessary nor uncertain, under
-- guardrails that pass; it has the finding's evidence and needs approval.
abbrev pub IsMade : (Finding → Type 0) → Context → Recommendation → Type 0
IsMade P context r =
    (f : Finding) × P f
    × (f.classification ≢ "necessary")
    × (f.classification ≢ "uncertain")
    × (context.quality_guardrails_pass ≡ true)
    × (r.evidence_refs ≡ f.evidence_refs)
    × (r.approval_required ≡ true)

candidate-preview :
    (f : Finding) (r : Recommendation)
    → candidate f ≡ some r
    → (r.evidence_refs ≡ f.evidence_refs) × (r.approval_required ≡ true)
unfolding candidate preview
candidate-preview f r h = ground arith

skipped_inv :
    (context : Context) (f : Finding)
    → skipped context f ≡ false
    → (f.classification ≢ "necessary")
      × (f.classification ≢ "uncertain")
      × (context.quality_guardrails_pass ≡ true)
unfolding skipped
skipped_inv context f h =
    let necessary = eq_iff f.classification "necessary" in
    let uncertain = eq_iff f.classification "uncertain" in
    (λ e. ground arith, λ e. ground arith, ground arith)

full_lem : (rs : List Recommendation) → (length rs == 5) ≡ true → length rs ≡ 5
full_lem rs h = ground arith

less_lem : (rs : List Recommendation) → length rs ≤ 5 → (length rs == 5) ≡ false → length rs + 1 ≤ 5
less_lem rs h e = ground arith

module _ (context : Context) where
  generate_loop-IsMade :
      (P : Finding → Type 0) (result : List Recommendation) (fs : List Finding)
      → All P fs
      → All (IsMade P context) result
      → All (IsMade P context) (generate_loop context result fs)
  unfolding generate_loop
  generate_loop-IsMade P result [] a h = h
  generate_loop-IsMade P result (f ∷ fs) a h = elim (Bool-cases (length result == 5)) [
    | inl full ↦ rw (generate_loop, full) h
    | inr room ↦ elim (Bool-cases (skipped context f)) [
      | inl skip ↦ rw (generate_loop, room, skip) (generate_loop-IsMade P result fs a.1 h)
      | inr keep ↦ elim (Option-cases (candidate f)) [
        | inl absent ↦
            rw (generate_loop, room, keep, absent) (generate_loop-IsMade P result fs a.1 h)
        | inr (r, made) ↦
            let (n, u, q) = skipped_inv context f keep in
            let (refs, approval) = candidate-preview f r made in
            rw (generate_loop, room, keep, made)
              (generate_loop-IsMade P (result ++ r ∷ []) fs a.1 (
                All-append (IsMade P context) result (r ∷ []) h
                  ((f, a.0, n, u, q, refs, approval), tt)))
      ]
    ]
  ]

  length-generate_loop :
      (result : List Recommendation) (fs : List Finding)
      → length result ≤ 5
      → length (generate_loop context result fs)
        ≡ min 5 (length result + tally (is_actionable context) fs)
  unfolding generate_loop
  length-generate_loop result [] h = omega arith
  length-generate_loop result (f ∷ fs) h = elim (Bool-cases (length result == 5)) [
    | inl full ↦ rw (generate_loop, full) (omega (arith, full_lem result full))
    | inr room ↦
        let less : length result + 1 ≤ 5 = less_lem result h room in
        elim (Bool-cases (skipped context f)) [
          | inl skip ↦
              rw (generate_loop, room, skip) (omega (arith, length-generate_loop result fs h))
          | inr keep ↦ elim (Option-cases (candidate f)) [
            | inl absent ↦
                rw (generate_loop, room, keep, absent)
                  (omega (arith, length-generate_loop result fs h))
            | inr (r, made) ↦
                let one = length-append result (r ∷ []) in
                let next = length-generate_loop (result ++ r ∷ []) fs (omega arith) in
                rw (generate_loop, room, keep, made) (omega arith)
          ]
        ]
  ]

length-or_no_action :
    (rs : List Recommendation)
    → length (or_no_action rs) ≡ (if length rs == 0 then 1 else length rs)
unfolding or_no_action
length-or_no_action [] = refl
length-or_no_action (r ∷ rs) = ground arith

or_no_action-All :
    (Q : Recommendation → Type 0) (rs : List Recommendation)
    → All Q rs
    → All (λ r. (r ≡ no_action) ⊎ Q r) (or_no_action rs)
unfolding or_no_action
or_no_action-All Q [] a = (inl refl, tt)
or_no_action-All Q (r ∷ rs) a = (inr a.0, each rs a.1)
  where
    each : (rs : List Recommendation) → All Q rs → All (λ r. (r ≡ no_action) ⊎ Q r) rs
    each [] a = tt
    each (r ∷ rs) a = (inr a.0, each rs a.1)

-- One recommendation for each finding that one can be made of, five at most, and a single one to do
-- nothing if there is none.
pub length-generate :
    (findings : List Finding) (context : Context)
    → let n = tally (is_actionable context) findings in
      length (generate findings context) ≡ (if n == 0 then 1 else min 5 n)
unfolding generate
length-generate findings context = ground (
  arith,
  length-or_no_action (generate_loop context [] (sort has_code_before findings)),
  length-generate_loop context [] (sort has_code_before findings),
  tally-sort has_code_before (is_actionable context) findings,
)

-- Every recommendation is to do nothing, or is made of one of the findings, which is neither
-- necessary nor uncertain, while the quality guardrails pass; it has that finding's evidence and needs
-- approval.
pub generate-IsMade :
    (P : Finding → Type 0) (findings : List Finding) (context : Context)
    → All P findings
    → All (λ r. (r ≡ no_action) ⊎ IsMade P context r) (generate findings context)
unfolding generate
generate-IsMade P findings context a =
    or_no_action-All (IsMade P context) (generate_loop context [] (sort has_code_before findings)) (
      generate_loop-IsMade context P [] (sort has_code_before findings)
        (All-sort has_code_before P findings a) tt)

empty_lem : (rs : List Recommendation) → length rs ≡ 0 → rs ≡ []
empty_lem [] h = refl
empty_lem (r ∷ rs) h = absurd (omega arith)

module _ {F : Type 0} (is_above_zero : F → Bool) (at_most : ℤ → ℤ → F → Bool) where
  -- The work was required, or what is known of it is not complete.
  abbrev pub is_excused : Observation is_above_zero at_most → Bool
  is_excused o = o.required_work || not (is_complete o.coverage)

  excused_finding :
      (context : Context) (o : Observation is_above_zero at_most)
      → is_excused o ≡ true
      → is_actionable context (finding_of is_above_zero at_most o) ≡ false
  unfolding finding_of classify skipped
  excused_finding context o h = elim (Bool-cases o.required_work) [
    | inl required ↦ rw (skipped, finding_of, required) refl
    | inr free ↦
        let partial : is_complete o.coverage ≡ false = ground arith in
        rw (skipped, finding_of, classify, free, partial) refl
  ]

  excused_tally :
      (context : Context) (os : List (Observation is_above_zero at_most))
      → All (λ o. is_excused o ≡ true) os
      → tally (is_actionable context) (evaluate_each is_above_zero at_most os) ≡ 0
  unfolding evaluate_each evaluate_one
  excused_tally context [] a = refl
  excused_tally context (o ∷ os) a =
      ground (arith, excused_tally context os a.1, excused_finding context o a.0)

  -- Observations of required work, or with coverage that is not complete, lead to a single
  -- recommendation, to do nothing, whatever their counts.
  pub generate-evaluate :
      (context : Context) (os : List (Observation is_above_zero at_most))
      → All (λ o. is_excused o ≡ true) os
      → generate (evaluate is_above_zero at_most os) context ≡ no_action ∷ []
  unfolding generate evaluate or_no_action
  generate-evaluate context os a =
      let found = evaluate_each is_above_zero at_most os in
      let sorted = sort has_code_before found in
      let none : generate_loop context [] (sort has_code_before sorted) ≡ [] =
        empty_lem (generate_loop context [] (sort has_code_before sorted)) (
          length-generate_loop context [] (sort has_code_before sorted) (omega arith)
          ∙ omega (
            arith,
            tally-sort has_code_before (is_actionable context) sorted,
            tally-sort has_code_before (is_actionable context) found,
            excused_tally context os a,
          )) in
      ap or_no_action none
