-- ===== src/Boundary/Resolution.antt =====
-- internal/boundary/resolve.go: the candidates in the order of their authority, with what conflicts.
use codex_prompt_better.Base.{
  ℕ, String, Bool, not, if◌then◌else◌, str_eq, ltb, ◌==◌, List, [], ◌∷◌, ◌++◌, Option, length,
}
use codex_prompt_better.Base.Floats.{Floats}
use codex_prompt_better.Base.Text.{str_lt}
use codex_prompt_better.Base.Sorting.{sort}
use codex_prompt_better.Boundary.Selection.{authority}
use codex_prompt_better.Boundary.Cycle.Search.{Graph, contains, first_cycle}

module _ (floats : Floats) where
  open floats use {F, eq, lt}

  pub record Candidate : Type 0 where
    pub id : String
    pub category : String
    pub source_kind : String
    pub source_ref : String
    pub confidence : F
    pub specificity : ℕ  -- an int, the depth of a path
    pub facts : String → Option String
    pub conflicts : List String

  pub record Resolution : Type 0 where
    pub candidates : List Candidate
    pub conflicted : String → Bool
    pub cycle : List String

  unfoldable pub ranks_before : Candidate → Candidate → Bool
  unfolding authority
  ranks_before left right =
      if not (authority left.source_kind == authority right.source_kind)
      then ltb (authority right.source_kind) (authority left.source_kind)
      else if not (left.specificity == right.specificity)
      then ltb right.specificity left.specificity
      else if not (eq left.confidence right.confidence)
      then lt right.confidence left.confidence
      else str_lt left.id right.id

  -- `graph[candidate.ID] = refs`.
  unfoldable pub put : String → List String → Graph → Graph
  put key refs [] = (key, refs) ∷ []
  put key refs ((k, old) ∷ graph) =
      if str_eq k key then (k, refs) ∷ graph else (k, old) ∷ put key refs graph

  unfoldable pub build_graph : Graph → List Candidate → Graph
  unfolding put sort
  build_graph graph [] = graph
  build_graph graph (c ∷ candidates) =
      build_graph (put c.id (sort str_lt c.conflicts) graph) candidates

  -- The ids that the loop adds to `conflicted`.
  unfoldable pub conflicted_ids : List Candidate → List String
  conflicted_ids [] = []
  conflicted_ids (c ∷ candidates) =
      let rest = conflicted_ids candidates in
      (if ltb 0 (length c.conflicts) then c.id ∷ c.conflicts else []) ++ rest

  abbrev pub ordered : List Candidate → List Candidate
  ordered candidates = sort ranks_before candidates

  unfoldable pub resolve : List Candidate → Resolution
  unfolding sort build_graph conflicted_ids
  resolve candidates = record {
    candidates = ordered candidates;
    conflicted = contains (conflicted_ids (ordered candidates));
    cycle = first_cycle (build_graph [] (ordered candidates));
  }
