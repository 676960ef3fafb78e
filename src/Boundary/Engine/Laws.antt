-- ===== src/Boundary/Engine/Laws.antt =====
-- How many decisions the engine makes, and what a cycle of conflicts does to them.
use mathlib.Core.Path.{subst}
use codex_prompt_better.Base.{
  ℕ, ◌+◌, ◌≤◌, ◌≡◌, refl, sym, String, Bool, true, false, not, ltb, List, [], ◌∷◌, ◌++◌, map,
  length, length-map, arith, All, Result, ok, ◌>>◌, >>=-eq-ok, ok-injective, require, Bool-cases,
  inl, inr,
}
use codex_prompt_better.Base.Floats.{Floats}
use codex_prompt_better.Base.Sorting.{sort, All-sort, length-sort}
use codex_prompt_better.Boundary.Decision.{block}
use codex_prompt_better.Boundary.Selection.{Ruling, RankedDecision, better_decision, max_decisions}
use codex_prompt_better.Boundary.Selection.Bounded.{select_all-All}
use codex_prompt_better.Boundary.Cycle.Sound.{IsCycle}
use codex_prompt_better.Boundary.Cycle.Complete.{first_cycle_iff}
use codex_prompt_better.Boundary.Cycle.Search.{first_cycle}
use codex_prompt_better.Boundary.Resolution.{Candidate, ordered, build_graph, resolve}
use codex_prompt_better.Boundary.Engine.{
  of_packs, duplicate_identity, overlaps, stands_before, normalized_facts, ranked_decision,
  evaluate_candidates, evaluate_context,
}
use codex_prompt_better.Policypack.Packs.{Pack, Match, Failure, evaluate, validate_extensions}

All-ranked :
    {M D : Type 0} (P : D → Type 0) (f : M → D) (ms : List M)
    → ((m : M) → P (f m))
    → All P (map f ms)
All-ranked P f [] h = tt
All-ranked P f (m ∷ ms) h = (h m, All-ranked P f ms h)

All-mapped :
    {M D : Type 0} (P : D → Type 0) (f : M → D) (ms : List M)
    → All (λ m. P (f m)) ms
    → All P (map f ms)
All-mapped P f [] a = tt
All-mapped P f (m ∷ ms) a = (a.0, All-mapped P f ms a.1)

empty_of : {A : Type 0} {xs : List A} → ltb 0 (length xs) ≡ false → xs ≡ []
empty_of {xs = []} e = refl
empty_of {xs = x ∷ xs} e = ground arith

-- A decision of which nothing risky is let through.
abbrev pub IsSafe : Ruling → Type 0
IsSafe d = 50 ≤ d.risk → d.outcome ≡ block

module _ (floats : Floats) where
  module _ (cyclic : Bool) (P : RankedDecision → Type 0)
      (each : (order : ℕ) (c : Candidate floats) (m : Match)
        → P (ranked_decision floats cyclic order c m)) where
    evaluate_candidates-All :
        (conflicted : String → Bool) (packs extensions : List Pack) (order : ℕ)
        (selected : List RankedDecision) (cs : List (Candidate floats)) (r : List RankedDecision)
        → All P selected
        → length selected ≤ max_decisions
        → evaluate_candidates floats cyclic conflicted packs extensions order selected cs ≡ ok r
        → All P r × (length r ≤ max_decisions)
    unfolding evaluate_candidates
    evaluate_candidates-All conflicted packs extensions order selected [] r a l e =
        let same : selected ≡ r = ok-injective e in
        subst (λ (s : List RankedDecision). All P s × (length s ≤ max_decisions)) same (a, l)
    evaluate_candidates-All conflicted packs extensions order selected (c ∷ cs) r a l e =
        let facts = normalized_facts floats cyclic c (conflicted c.id) in
        let (matches, _, e1) = >>=-eq-ok (of_packs (evaluate packs facts)) _ e in
        let (more, _, e2) = >>=-eq-ok (of_packs (evaluate extensions facts)) _ e1 in
        let (b, k) =
          select_all-All better_decision P max_decisions selected
            (map (ranked_decision floats cyclic order c) (matches ++ more)) a (omega arith) l
            (All-ranked P (ranked_decision floats cyclic order c) (matches ++ more)
              (each order c)) in
        evaluate_candidates-All conflicted packs extensions (order + 1) _ cs r b k e2

  ranked_decision-IsSafe :
      (order : ℕ) (c : Candidate floats) (m : Match)
      → IsSafe (ranked_decision floats true order c m).decision
  unfolding ranked_decision
  ranked_decision-IsSafe order c m h = ground arith

  evaluate_context-inv :
      (builtin : Result Failure (List Pack)) (cs : List (Candidate floats)) (extensions : List Pack)
      (ds : List Ruling)
      → evaluate_context floats builtin cs extensions ≡ ok ds
      → let resolution = resolve floats cs in
        (packs : List Pack) × (selected : List RankedDecision) × (evaluate_candidates floats
            (ltb 0 (length resolution.cycle))
            resolution.conflicted
            packs
            extensions
            0
            []
            resolution.candidates
          ≡ ok selected)
        × (ds ≡ sort stands_before (map (λ e. e.decision) selected))
  unfolding evaluate_context
  evaluate_context-inv builtin cs extensions ds e =
      let resolution = resolve floats cs in
      let (packs, _, e1) = >>=-eq-ok (of_packs builtin) _ e in
      let (_, _, e2) =
        >>=-eq-ok
          (of_packs (validate_extensions extensions)
            >> require (not (overlaps packs extensions)) duplicate_identity)
          _ e1 in
      let (selected, e3, e4) =
        >>=-eq-ok
          (evaluate_candidates floats (ltb 0 (length resolution.cycle)) resolution.conflicted packs
            extensions 0 [] resolution.candidates)
          _ e2 in
      (packs, selected, e3, sym (ok-injective e4))

  -- What every decision that a run collects has, the decisions returned have, and they are at
  -- most as many as the bound.
  evaluate_context-All :
      (P : Ruling → Type 0) (builtin : Result Failure (List Pack)) (cs : List (Candidate floats))
      (extensions : List Pack) (ds : List Ruling)
      → evaluate_context floats builtin cs extensions ≡ ok ds
      → ((order : ℕ) (c : Candidate floats) (m : Match)
          → P
              (ranked_decision floats
                (ltb 0 (length (resolve floats cs).cycle))
                order
                c
                m).decision)
      → All P ds × (length ds ≤ max_decisions)
  evaluate_context-All P builtin cs extensions ds e each =
      let (packs, selected, run, same) = evaluate_context-inv builtin cs extensions ds e in
      let (a, l) =
        evaluate_candidates-All (ltb 0 (length (resolve floats cs).cycle)) (λ e. P e.decision) each
          (resolve floats cs).conflicted packs extensions 0 [] (resolve floats cs).candidates
          selected tt (omega arith) run in
      let decisions = map (λ (x : RankedDecision). x.decision) selected in
      subst (λ (x : List Ruling). All P x × (length x ≤ max_decisions)) (sym same)
        (
          All-sort stands_before P decisions (All-mapped P (λ x. x.decision) selected a),
          omega (
            arith,
            length-sort stands_before decisions,
            length-map (λ (x : RankedDecision). x.decision) selected,
            l,
          ),
        )

  -- If the candidates' conflicts have a cycle and the evaluation gives decisions, then these are at
  -- most as many as the bound, and every one of a risk of 50 or more blocks.
  pub evaluate_context-IsSafe :
      (builtin : Result Failure (List Pack)) (cs : List (Candidate floats)) (extensions : List Pack)
      (ds : List Ruling) (c : List String)
      → IsCycle (build_graph floats [] (ordered floats cs)) c
      → evaluate_context floats builtin cs extensions ≡ ok ds
      → All IsSafe ds × (length ds ≤ max_decisions)
  unfolding resolve
  evaluate_context-IsSafe builtin cs extensions ds c cycle e =
      let graph = build_graph floats [] (ordered floats cs) in
      let cyclic : ltb 0 (length (first_cycle graph)) ≡ true =
        elim (Bool-cases (ltb 0 (length (first_cycle graph)))) [
          | inl more ↦ more
          | inr nothing ↦ absurd ((first_cycle_iff graph).0.0 (empty_of nothing) c cycle)
        ] in
      evaluate_context-All IsSafe builtin cs extensions ds e
        (λ order d m. rw cyclic (ranked_decision-IsSafe order d m))
