-- ===== src/Boundary/Cycle/Search.antt =====
-- The depth-first search. A map of the code is an association list with one entry for each key.
use codex_prompt_better.Base.{
  ℕ, zero, suc, String, Bool, if◌then◌else◌, str_eq, List, [], ◌∷◌, ◌++◌, map, some_of, keep,
  length,
}
use codex_prompt_better.Base.Text.{str_lt}
use codex_prompt_better.Base.Sorting.{sort}

abbrev pub Graph : Type 0
Graph = List (String × List String)

abbrev pub contains : List String → String → Bool
contains names name = some_of (λ n. str_eq n name) names

-- `graph[node]`, nothing for an absent key.
unfoldable pub edges : Graph → String → List String
edges [] node = []
edges ((key, refs) ∷ graph) node = if str_eq key node then refs else edges graph node

abbrev pub keys : Graph → List String
keys graph = map (λ e. e.0) graph

abbrev pub has_key : Graph → String → Bool
has_key graph = contains (keys graph)

-- How a visit ends: with a cycle, or with the nodes whose state is 2.
pub data Visit : Type 0 where
  found : List String → Visit
  finished : List String → Visit
  out_of_fuel : Visit

-- `stack[position[node]:]`; the stack holds the nodes whose state is 1, each once.
unfoldable pub from : String → List String → List String
from node [] = []
from node (n ∷ stack) = if str_eq n node then n ∷ stack else from node stack

-- `state[node] = 2`, unless a cycle was found.
abbrev pub leave : String → Visit → Visit
leave node (found cycle) = found cycle
leave node (finished done) = finished (node ∷ done)
leave node out_of_fuel = out_of_fuel

abbrev pub go_on : Visit → (List String → Visit) → Visit
go_on (found cycle) next = found cycle
go_on (finished done) next = next done
go_on out_of_fuel next = out_of_fuel

-- A loop of visits, up to the first cycle.
unfoldable pub visit_all : (List String → String → Visit) → List String → List String → Visit
visit_all visit done [] = finished done
visit_all visit done (node ∷ nodes) = go_on (visit done node) (λ d. visit_all visit d nodes)

module _ (graph : Graph) where
  -- The edges that the loop of `visit` does not skip.
  abbrev pub nexts : String → List String
  nexts node = keep (has_key graph) (edges graph node)

  -- `visit`, with fuel for its depth.
  unfoldable pub visit : ℕ → List String → List String → String → Visit
  unfolding from visit_all
  visit zero stack done node = out_of_fuel
  visit (suc fuel) stack done node =
      let inside = visit_all (visit fuel (stack ++ node ∷ [])) done (nexts node) in
      if contains stack node
      then found (from node stack ++ node ∷ [])
      else if contains done node
      then finished done
      else leave node inside

-- A stack holds no key twice, so the depth stays below the fuel.
unfoldable pub search : Graph → Visit
unfolding visit visit_all sort
search graph = visit_all (visit graph (suc (length graph)) []) [] (sort str_lt (keys graph))

abbrev pub cycle_of : Visit → List String
cycle_of (found cycle) = cycle
cycle_of (finished done) = []
cycle_of out_of_fuel = []

unfoldable pub first_cycle : Graph → List String
unfolding search
first_cycle graph = cycle_of (search graph)
