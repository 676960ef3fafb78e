-- ===== src/Tests/Engine.antt =====
-- Two candidates that conflict with each other, and one that two packs judge.
use codex_prompt_better.Base.{
  ◌≡◌, ◌≢◌, ◌↔◌, refl, String, true, false, ◌≤◌, [], ◌∷◌, List, some, ok, All, length,
}
use codex_prompt_better.Base.Sorting.{sort}
use codex_prompt_better.Base.Floats.{Floats}
use codex_prompt_better.Boundary.Decision.{block, high}
use codex_prompt_better.Boundary.Selection.{Ruling, max_decisions}
use codex_prompt_better.Boundary.Cycle.Search.{Graph, edges, search, first_cycle, out_of_fuel}
use codex_prompt_better.Boundary.Cycle.Ends.{search-ends}
use codex_prompt_better.Boundary.Cycle.Sound.{IsCycle}
use codex_prompt_better.Boundary.Cycle.Complete.{first_cycle_iff}
use codex_prompt_better.Boundary.Resolution.{Candidate, build_graph, ordered, ranks_before}
use codex_prompt_better.Boundary.Engine.{evaluate_context}
use codex_prompt_better.Boundary.Engine.Laws.{IsSafe, evaluate_context-IsSafe}
use codex_prompt_better.Policypack.Identifier.{valid_identifier}
use codex_prompt_better.Policypack.Packs.{Pack, holds}
use codex_prompt_better.Tests.Policypack.{a_rule}

-- A cycle of two behind a node that leads to it, and an edge to no key.
abbrev a_graph : Graph
a_graph = ("a", "b" ∷ "z" ∷ []) ∷ ("b", "c" ∷ []) ∷ ("c", "b" ∷ []) ∷ []

a_graph-first_cycle : first_cycle a_graph ≡ "b" ∷ "c" ∷ "b" ∷ []
unfolding first_cycle edges
a_graph-first_cycle = refl

search-ends_example : search a_graph ≢ out_of_fuel
search-ends_example = search-ends a_graph

first_cycle_iff_example :
    ((first_cycle a_graph ≡ []) ↔ ((c : List String) → ¬ IsCycle a_graph c))
    × (first_cycle a_graph ≢ [] → IsCycle a_graph (first_cycle a_graph))
first_cycle_iff_example = first_cycle_iff a_graph

-- One number, which all confidences are.
abbrev one_float : Floats
one_float = record { F = Unit; finite = λ _. true; eq = λ _ _. true; lt = λ _ _. false }

abbrev a_candidate : String → String → Candidate one_float
a_candidate id other = record {
  id = id;
  category = "privacy";
  source_kind = "repository";
  source_ref = "AGENTS.md";
  confidence = tt;
  specificity = 1;
  facts = λ name. some "review";
  conflicts = other ∷ [];
}

abbrev two_candidates : List (Candidate one_float)
two_candidates = a_candidate "a" "b" ∷ a_candidate "b" "a" ∷ []

two_candidates-IsCycle :
    IsCycle (build_graph one_float [] (ordered one_float two_candidates)) ("a" ∷ "b" ∷ "a" ∷ [])
unfolding build_graph sort edges ranks_before
two_candidates-IsCycle = ("a", "b" ∷ [], refl, (refl, (refl, tt)))

-- A pack that only warns, which the cycle turns into blocks.
abbrev warn_pack : Pack
warn_pack = record {
  schema_version = "1.0.0";
  id = "team";
  version = "1.0.0";
  rules = a_rule "b" "warn" "review" ∷ [];
}

abbrev blocked : String → Ruling
blocked other = record {
  category = "privacy";
  outcome = block;
  risk = 60;
  risk_level = high;
  source_ref = "AGENTS.md";
  pack_id = "team";
  rule_id = "b";
  version = "1.0.0";
  explanation = "asks first";
  conflict_refs = other ∷ [];
}

two_candidates-evaluate :
    evaluate_context one_float (ok (warn_pack ∷ [])) two_candidates []
    ≡ ok (blocked "b" ∷ blocked "a" ∷ [])
unfolding evaluate_context valid_identifier sort holds edges ranks_before first_cycle
two_candidates-evaluate = refl

evaluate_context-IsSafe_example :
    All IsSafe (blocked "b" ∷ blocked "a" ∷ [])
    × (length (blocked "b" ∷ blocked "a" ∷ []) ≤ max_decisions)
evaluate_context-IsSafe_example =
    evaluate_context-IsSafe one_float (ok (warn_pack ∷ [])) two_candidates []
      (blocked "b" ∷ blocked "a" ∷ []) ("a" ∷ "b" ∷ "a" ∷ []) two_candidates-IsCycle
      two_candidates-evaluate
