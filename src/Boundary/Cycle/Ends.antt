-- ===== src/Boundary/Cycle/Ends.antt =====
-- The search ends.
use codex_prompt_better.Base.{
  ℕ, zero, suc, ◌≤◌, ◌<◌, ◌≡◌, ◌≢◌, String, true, false, not, ◌||◌, str_eq, eq_iff, List, [], ◌∷◌,
  ◌++◌, keep, length, tally, tally-le-length, length-map, All, All-map, arith, Bool-cases, inl, inr,
}
use codex_prompt_better.Base.Text.{str_lt}
use codex_prompt_better.Base.Sorting.{sort, All-sort}
use codex_prompt_better.Boundary.Cycle.Search.{
  Graph, contains, edges, keys, has_key, Visit, found, finished, out_of_fuel, leave, go_on,
  visit_all, nexts, visit, search,
}

-- The keys that are not on the stack.
abbrev pub unvisited : Graph → List String → ℕ
unvisited graph stack = tally (λ k. not (contains stack k)) (keys graph)

contains-snoc :
    (stack : List String) (node k : String)
    → contains (stack ++ node ∷ []) k ≡ (contains stack k || str_eq node k)
contains-snoc [] node k = ground arith
contains-snoc (n ∷ stack) node k = ground (arith, contains-snoc stack node k)

unvisited_le :
    (stack : List String) (node : String) (ks : List String)
    → tally (λ k. not (contains (stack ++ node ∷ []) k)) ks ≤ tally (λ k. not (contains stack k)) ks
unvisited_le stack node [] = omega arith
unvisited_le stack node (k ∷ ks) =
    ground (arith, unvisited_le stack node ks, contains-snoc stack node k)

unvisited_lt :
    (stack : List String) (node : String) (ks : List String)
    → contains ks node ≡ true
    → contains stack node ≡ false
    → tally (λ k. not (contains (stack ++ node ∷ []) k)) ks < tally (λ k. not (contains stack k)) ks
unvisited_lt stack node [] m n = cc
unvisited_lt stack node (k ∷ ks) m n = ground (
  arith,
  unvisited_lt stack node ks,
  unvisited_le stack node ks,
  contains-snoc stack node k,
  eq_iff k node,
  eq_iff node k,
)

pub All-contains : (names : List String) → All (λ n. contains names n ≡ true) names
All-contains [] = tt
All-contains (n ∷ names) = (
  ground (arith, eq_iff n n),
  All-map (λ (m : String) (h : contains names m ≡ true). ground arith) names (All-contains names),
)

nexts-has_key :
    (graph : Graph) (ns : List String) → All (λ n. has_key graph n ≡ true) (keep (has_key graph) ns)
nexts-has_key graph [] = tt
nexts-has_key graph (n ∷ ns) = elim (Bool-cases (has_key graph n)) [
  | inl e ↦ rw e (e, nexts-has_key graph ns)
  | inr e ↦ rw e (nexts-has_key graph ns)
]

go_on-ends :
    (v : Visit) (next : List String → Visit)
    → v ≢ out_of_fuel
    → ((d : List String) → next d ≢ out_of_fuel)
    → go_on v next ≢ out_of_fuel
go_on-ends (found cycle) next h k = h
go_on-ends (finished done) next h k = k done
go_on-ends out_of_fuel next h k = h

leave-ends : (node : String) (v : Visit) → v ≢ out_of_fuel → leave node v ≢ out_of_fuel
leave-ends node (found cycle) h = h
leave-ends node (finished done) h = λ e. cc
leave-ends node out_of_fuel h = h

module _ (graph : Graph) where
  visit_all-ends :
      (go : List String → String → Visit) (done : List String) (ns : List String)
      → ((d : List String) (n : String) → has_key graph n ≡ true → go d n ≢ out_of_fuel)
      → All (λ n. has_key graph n ≡ true) ns
      → visit_all go done ns ≢ out_of_fuel
  unfolding visit_all
  visit_all-ends go done [] h a = λ e. cc
  visit_all-ends go done (n ∷ ns) h a =
      go_on-ends (go done n) (λ d. visit_all go d ns) (h done n a.0)
        (λ d. visit_all-ends go d ns h a.1)

  visit-ends :
      (fuel : ℕ) (stack done : List String) (node : String)
      → has_key graph node ≡ true
      → unvisited graph stack < fuel
      → visit graph fuel stack done node ≢ out_of_fuel
  unfolding visit
  visit-ends zero stack done node k m = absurd (omega arith)
  visit-ends (suc fuel) stack done node k m = elim (Bool-cases (contains stack node)) [
    | inl back ↦ rw (visit, back) (λ e. cc)
    | inr fresh ↦
        let less = unvisited_lt stack node (keys graph) k fresh in
        let inside =
          visit_all-ends (visit graph fuel (stack ++ node ∷ [])) done (nexts graph node)
            (λ d n h. visit-ends fuel (stack ++ node ∷ []) d n h (omega arith))
            (nexts-has_key graph (edges graph node)) in
        elim (Bool-cases (contains done node)) [
          | inl over ↦ rw (visit, fresh, over) (λ e. cc)
          | inr new ↦ rw (visit, fresh, new) (leave-ends node _ inside)
        ]
  ]

  -- The fuel is enough: the search for a cycle ends, with one or with all nodes visited.
  pub search-ends : search graph ≢ out_of_fuel
  unfolding search
  search-ends =
      visit_all-ends (visit graph (suc (length graph)) []) [] (sort str_lt (keys graph))
        (λ d n h. visit-ends (suc (length graph)) [] d n h small)
        (All-sort str_lt (λ n. has_key graph n ≡ true) (keys graph) (All-contains (keys graph)))
    where
      small : unvisited graph [] < suc (length graph)
      small = omega (
        arith,
        tally-le-length (λ k. not (contains [] k)) (keys graph),
        length-map (λ (e : String × List String). e.0) graph,
      )
