-- ===== src/Boundary/Cycle/Sound.antt =====
-- What the search finds is a cycle.
use mathlib.Core.Path.{subst}
use codex_prompt_better.Base.{
  ℕ, zero, suc, ◌≡◌, sym, ap, ◌∙◌, String, Bool, true, str_eq, eq_iff, List, [], ◌∷◌, ◌++◌, length,
  All, arith, Bool-cases, inl, inr,
}
use codex_prompt_better.Base.Text.{str_lt}
use codex_prompt_better.Base.Sorting.{sort}
use codex_prompt_better.Boundary.Cycle.Search.{
  Graph, contains, keys, Visit, found, from, visit_all, nexts, visit, search,
}
use codex_prompt_better.Boundary.Cycle.Ends.{All-contains}
use codex_prompt_better.Boundary.Cycle.Cases.{
  go_on-found, leave-found, visit-back, visit-over, visit-new,
}

module _ (graph : Graph) where
  -- The node `y` is a key of the graph that `x` refers to.
  abbrev pub edge : String → String → Bool
  edge x y = contains (nexts graph x) y

  -- A walk along edges from a node.
  abbrev pub IsWalk : String → List String → Type 0
  IsWalk x [] = Unit
  IsWalk x (y ∷ rest) = (edge x y ≡ true) × IsWalk y rest

  -- A walk that comes back to where it starts, written with the node at both ends.
  abbrev pub IsCycle : List String → Type 0
  IsCycle c =
      (n : String) × (middle : List String) × (c ≡ n ∷ middle ++ n ∷ [])
      × IsWalk n (middle ++ n ∷ [])

  -- The stack is a walk to the node.
  abbrev LeadsTo : List String → String → Type 0
  LeadsTo [] node = Unit
  LeadsTo (s ∷ stack) node = IsWalk s (stack ++ node ∷ [])

  IsWalk-snoc :
      (x : String) (rest : List String) (n next : String)
      → IsWalk x (rest ++ n ∷ [])
      → edge n next ≡ true
      → IsWalk x ((rest ++ n ∷ []) ++ next ∷ [])
  IsWalk-snoc x [] n next w e = (w.0, (e, tt))
  IsWalk-snoc x (y ∷ rest) n next w e = (w.0, IsWalk-snoc y rest n next w.1 e)

  LeadsTo-snoc :
      (stack : List String) (n next : String)
      → LeadsTo stack n
      → edge n next ≡ true
      → LeadsTo (stack ++ n ∷ []) next
  LeadsTo-snoc [] n next l e = (e, tt)
  LeadsTo-snoc (s ∷ stack) n next l e = IsWalk-snoc s stack n next l e

  LeadsTo-tail :
      (s : String) (stack : List String) (n : String) → LeadsTo (s ∷ stack) n → LeadsTo stack n
  LeadsTo-tail s [] n l = tt
  LeadsTo-tail s (t ∷ stack) n l = l.1

  from_lem :
      (stack : List String) (node : String)
      → contains stack node ≡ true
      → LeadsTo stack node
      → (middle : List String) × (from node stack ≡ node ∷ middle)
        × IsWalk node (middle ++ node ∷ [])
  unfolding from
  from_lem [] node c l = cc
  from_lem (s ∷ stack) node c l = elim (Bool-cases (str_eq s node)) [
    | inl e ↦
        let same = (eq_iff s node).0 e in
        (
          stack,
          rw (from, e) (ap (λ x. x ∷ stack) same),
          subst (λ x. IsWalk x (stack ++ node ∷ [])) same l,
        )
    | inr e ↦ rw (from, e) (from_lem stack node (ground arith) (LeadsTo-tail s stack node l))
  ]

  visit_all-IsCycle :
      (Q : String → Type 0) (go : List String → String → Visit) (c : List String)
      → ((d : List String) (n : String) → Q n → go d n ≡ found c → IsCycle c)
      → (done ns : List String) → All Q ns
      → visit_all go done ns ≡ found c
      → IsCycle c
  unfolding visit_all
  visit_all-IsCycle Q go c h done [] a e = cc
  visit_all-IsCycle Q go c h done (n ∷ ns) a e =
      elim (go_on-found (go done n) (λ d. visit_all go d ns) c e) [
        | inl here ↦ h done n a.0 here
        | inr (d, over, later) ↦ visit_all-IsCycle Q go c h d ns a.1 later
      ]

  visit-IsCycle :
      (fuel : ℕ) (stack done : List String) (node : String) (c : List String)
      → LeadsTo stack node
      → visit graph fuel stack done node ≡ found c
      → IsCycle c
  unfolding visit
  visit-IsCycle zero stack done node c l e = cc
  visit-IsCycle (suc fuel) stack done node c l e = elim (Bool-cases (contains stack node)) [
    | inl back ↦
        let (middle, at, walk) = from_lem stack node back l in
        let ended : found (from node stack ++ node ∷ []) ≡ found c =
          sym (visit-back graph fuel stack done node back) ∙ e in
        let same : from node stack ++ node ∷ [] ≡ c = cc in
        (node, middle, sym same ∙ ap (λ s. s ++ node ∷ []) at, walk)
    | inr fresh ↦ elim (Bool-cases (contains done node)) [
      | inl over ↦ absurd (cc (visit-over graph fuel stack done node fresh over))
      | inr new ↦
          visit_all-IsCycle (λ n. edge node n ≡ true) (visit graph fuel (stack ++ node ∷ [])) c
            (λ d n h. visit-IsCycle fuel (stack ++ node ∷ []) d n c (LeadsTo-snoc stack node n l h))
            done (nexts graph node) (All-contains (nexts graph node))
            (leave-found node _ c (sym (visit-new graph fuel stack done node fresh new) ∙ e))
    ]
  ]

  any : (ns : List String) → All (λ (n : String). Unit {0}) ns
  any [] = tt
  any (n ∷ ns) = (tt, any ns)

  -- A cycle that is found is a closed walk along edges between keys of the graph.
  pub search-IsCycle : (c : List String) → search graph ≡ found c → IsCycle c
  unfolding search
  search-IsCycle c e =
      visit_all-IsCycle (λ n. Unit {0}) (visit graph (suc (length graph)) []) c
        (λ d n h. visit-IsCycle (suc (length graph)) [] d n c tt) [] (sort str_lt (keys graph))
        (any (sort str_lt (keys graph))) e
