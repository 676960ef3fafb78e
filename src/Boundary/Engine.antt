-- ===== src/Boundary/Engine.antt =====
-- internal/boundary/engine.go: `EvaluateContext`. The packs built in are a parameter, as their files
-- are embedded data.
pub mod Laws
use Prim.Native.String.{◌++◌ as append}
use codex_prompt_better.Base.{
  ℕ, ◌+◌, String, Bool, true, false, not, ◌&&◌, ◌||◌, if◌then◌else◌, str_eq, ltb, leb, List, [],
  ◌∷◌, ◌++◌, Option, none, some, map, some_of, length, Result, ok, err, ◌>>=◌, ◌>>◌, require,
}
use codex_prompt_better.Base.Floats.{Floats}
use codex_prompt_better.Base.Integers.{ℤ, pos, negsuc}
use codex_prompt_better.Base.Text.{str_lt}
use codex_prompt_better.Base.Sorting.{sort}
use codex_prompt_better.Boundary.Decision.{Outcome, continue, warn, clarify, block, risk_level}
use codex_prompt_better.Boundary.Selection.{
  Ruling, RankedDecision, authority, better_decision, max_decisions, select_all,
}
use codex_prompt_better.Boundary.Resolution.{Candidate, resolve}
use codex_prompt_better.Policypack.Packs.{
  Pack, Match, Failure, key_of, validate_extensions, evaluate,
}

pub data EngineFailure : Type 0 where
  pack_failure : Failure → EngineFailure
  duplicate_identity : EngineFailure

abbrev pub of_packs {ℓ} : {A : Type ℓ} → Result Failure A → Result EngineFailure A
of_packs (ok a) = ok a
of_packs (err f) = err (pack_failure f)

-- The text of an outcome; the four of a validated pack are told apart.
unfoldable pub outcome_named : String → Outcome
outcome_named text =
    if str_eq text "block"
    then block
    else if str_eq text "clarify"
    then clarify
    else if str_eq text "warn"
    then warn
    else continue

abbrev pub score : ℤ → ℕ
score (pos n) = n
score (negsuc n) = 0

abbrev pub overlaps : List Pack → List Pack → Bool
overlaps packs extensions =
    some_of (λ e. some_of (λ p. str_eq (key_of p) (key_of e)) packs) extensions

-- The comparison of the last sort.
abbrev pub stands_before : Ruling → Ruling → Bool
stands_before left right =
    if not (str_eq left.pack_id right.pack_id)
    then str_lt left.pack_id right.pack_id
    else if not (str_eq left.rule_id right.rule_id)
    then str_lt left.rule_id right.rule_id
    else str_lt left.source_ref right.source_ref

module _ (floats : Floats) (cyclic : Bool) where
  unfoldable pub normalized_facts : Candidate floats → Bool → String → Option String
  normalized_facts c conflicted name =
      if conflicted && str_eq name "conflicted"
      then some "true"
      else if str_eq name "source_kind"
      then some c.source_kind
      else if str_eq name "category"
      then some c.category
      else c.facts name

  -- The body of the inner loop; a cycle blocks what is risky.
  unfoldable pub ranked_decision : ℕ → Candidate floats → Match → RankedDecision
  unfolding outcome_named risk_level authority sort
  ranked_decision order c m =
      let risk = score m.rule.risk_score in
      record {
        decision = record {
          category = m.rule.category;
          outcome = if cyclic && leb 50 risk then block else outcome_named m.rule.outcome;
          risk = risk;
          risk_level = risk_level risk;
          source_ref = c.source_ref;
          pack_id = m.pack_id;
          rule_id = m.rule.id;
          version = m.pack_version;
          explanation = m.rule.explanation;
          conflict_refs = sort str_lt c.conflicts;
        };
        authority = authority c.source_kind;
        candidate_order = order;
      }

  -- The loop over the candidates, from an order on, with what is selected.
  unfoldable pub evaluate_candidates :
      (String → Bool)
      → List Pack
      → List Pack
      → ℕ
      → List RankedDecision
      → List (Candidate floats)
      → Result EngineFailure (List RankedDecision)
  unfolding normalized_facts ranked_decision evaluate select_all better_decision
  evaluate_candidates conflicted packs extensions order selected [] = ok selected
  evaluate_candidates conflicted packs extensions order selected (c ∷ candidates) =
      of_packs (evaluate packs (normalized_facts c (conflicted c.id))) >>= λ matches.
      of_packs (evaluate extensions (normalized_facts c (conflicted c.id))) >>= λ more.
      evaluate_candidates conflicted packs extensions (order + 1)
        (select_all better_decision max_decisions selected
          (map (ranked_decision order c) (matches ++ more)))
        candidates

unfoldable pub evaluate_context :
    (floats : Floats)
    → Result Failure (List Pack)
    → List (Candidate floats)
    → List Pack
    → Result EngineFailure (List Ruling)
unfolding validate_extensions resolve evaluate_candidates sort
evaluate_context floats builtin candidates extensions = of_packs builtin >>= λ packs.
    (of_packs (validate_extensions extensions)
      >> require (not (overlaps packs extensions)) duplicate_identity)
    >> (let resolution = resolve floats candidates in
        evaluate_candidates floats (ltb 0 (length resolution.cycle)) resolution.conflicted packs
          extensions 0 [] resolution.candidates
        >>= λ selected. ok (sort stands_before (map (λ e. e.decision) selected)))
