-- ===== src/Boundary/Cycle/Complete.antt =====
-- Where there is a cycle, one is found.
use mathlib.Core.Path.{subst}
use codex_prompt_better.Base.{
  ℕ, zero, suc, ◌≤◌, ◌<◌, ◌≡◌, ◌≢◌, sym, ap, ◌∙◌, ◌↔◌, String, Bool, true, if◌then◌else◌, str_eq,
  eq_iff, List, [], ◌∷◌, ◌++◌, keep, length, some_of-tally, ltb, All, arith, Bool-cases, inl, inr,
}
use codex_prompt_better.Base.Text.{str_lt}
use codex_prompt_better.Base.Sorting.{sort, tally-sort}
use codex_prompt_better.Boundary.Cycle.Search.{
  Graph, contains, keys, has_key, edges, Visit, finished, visit_all, nexts, visit, search,
  first_cycle,
}
use codex_prompt_better.Boundary.Cycle.Ends.{search-ends}
use codex_prompt_better.Boundary.Cycle.Cases.{
  go_on-finished, leave-finished, visit-back, visit-over, visit-new, first_cycle-cases,
}
use codex_prompt_better.Boundary.Cycle.Sound.{edge, IsWalk, IsCycle, search-IsCycle}

-- What holds of all names holds of one that they contain.
All-member :
    (P : String → Type 0) (ns : List String) (n : String) → All P ns → contains ns n ≡ true → P n
All-member P [] n a c = cc
All-member P (m ∷ ns) n a c = elim (Bool-cases (str_eq m n)) [
  | inl e ↦ subst P ((eq_iff m n).0 e) a.0
  | inr e ↦ All-member P ns n a.1 (ground arith)
]

contains-keep :
    (p : String → Bool) (ns : List String) (n : String) → contains (keep p ns) n ≡ true → p n ≡ true
contains-keep p [] n c = cc
contains-keep p (m ∷ ns) n c = ground (arith, contains-keep p ns n, eq_iff m n)

module _ (graph : Graph) where
  -- Every edge leads from a node to one that stands behind it.
  abbrev IsTopological : List String → Type 0
  IsTopological [] = Unit
  IsTopological (n ∷ rest) = All (λ m. contains rest m ≡ true) (nexts graph n) × IsTopological rest

  abbrev Extends : List String → List String → Type 0
  Extends d r = (x : String) → contains d x ≡ true → contains r x ≡ true

  visit_all-finished :
      (go : List String → String → Visit)
      → ((d : List String) (n : String) (r : List String)
          → IsTopological d
          → go d n ≡ finished r
          → IsTopological r × Extends d r × (contains r n ≡ true))
      → (done ns r : List String) → IsTopological done
      → visit_all go done ns ≡ finished r
      → IsTopological r × Extends done r × All (λ n. contains r n ≡ true) ns
  unfolding visit_all
  visit_all-finished go h done [] r t e =
      let same : done ≡ r = cc in (subst IsTopological same t, λ x c. rw (← same) c, tt)
  visit_all-finished go h done (n ∷ ns) r t e =
      let (d, first, later) = go_on-finished (go done n) (λ d. visit_all go d ns) r e in
      let (td, more, has) = h done n d t first in
      let (tr, still, all) = visit_all-finished go h d ns r td later in
      (tr, λ x c. still x (more x c), (still n has, all))

  visit-finished :
      (fuel : ℕ) (stack done : List String) (node : String) (r : List String)
      → IsTopological done
      → visit graph fuel stack done node ≡ finished r
      → IsTopological r × Extends done r × (contains r node ≡ true)
  unfolding visit
  visit-finished zero stack done node r t e = cc
  visit-finished (suc fuel) stack done node r t e = elim (Bool-cases (contains stack node)) [
    | inl back ↦ absurd (cc (visit-back graph fuel stack done node back))
    | inr fresh ↦ elim (Bool-cases (contains done node)) [
      | inl over ↦
          let ended : finished done ≡ finished r =
            sym (visit-over graph fuel stack done node fresh over) ∙ e in
          let same : done ≡ r = cc in
          (subst IsTopological same t, λ x c. rw (← same) c, rw (← same) over)
      | inr new ↦
          let (d, inside, same) =
            leave-finished node _ r (sym (visit-new graph fuel stack done node fresh new) ∙ e) in
          let (td, more, all) =
            visit_all-finished (visit graph fuel (stack ++ node ∷ []))
              (λ d n r. visit-finished fuel (stack ++ node ∷ []) d n r) done (nexts graph node) d t
              inside in
          rw same ((all, td), λ x c. ground (arith, more x c), ground (arith, eq_iff node node))
    ]
  ]

  -- The place of the last occurrence, counted from the end.
  rank : List String → String → ℕ
  rank [] x = 0
  rank (y ∷ ys) x = if contains ys x then rank ys x else if str_eq y x then suc (length ys) else 0

  rank_le : (order : List String) (x : String) → rank order x ≤ length order
  unfolding rank
  rank_le [] x = omega arith
  rank_le (y ∷ ys) x = ground (arith, rank_le ys x)

  rank-edge :
      (order : List String) (x y : String)
      → IsTopological order
      → contains order x ≡ true
      → edge graph x y ≡ true
      → (contains order y ≡ true) × (rank order y < rank order x)
  unfolding rank
  rank-edge [] x y t c e = cc
  rank-edge (z ∷ zs) x y t c e = elim (Bool-cases (contains zs x)) [
    | inl later ↦ ground (arith, rank-edge zs x y t.1 later e)
    | inr last ↦
        let here : z ≡ x = (eq_iff z x).0 (ground arith) in
        let from_z : edge graph z y ≡ true = subst (λ n. edge graph n y ≡ true) (sym here) e in
        let behind = All-member (λ m. contains zs m ≡ true) (nexts graph z) y t.0 from_z in
        ground (arith, rank_le zs y, eq_iff z x)
  ]

  rank_walk :
      (order : List String) (x : String) (rest : List String) (n : String)
      → IsTopological order
      → contains order x ≡ true
      → IsWalk graph x (rest ++ n ∷ [])
      → rank order n < rank order x
  rank_walk order x [] n t c w = (rank-edge order x n t c w.0).1
  rank_walk order x (y ∷ rest) n t c w =
      let (has, less) = rank-edge order x y t c w.0 in
      omega (arith, rank_walk order y rest n t has w.1)

  walk-has_key :
      (x : String) (rest : List String) (n : String)
      → IsWalk graph x (rest ++ n ∷ [])
      → has_key graph n ≡ true
  walk-has_key x [] n w = contains-keep (has_key graph) (edges graph x) n w.0
  walk-has_key x (y ∷ rest) n w = walk-has_key y rest n w.1

  contains-sort : (ns : List String) (n : String) → contains (sort str_lt ns) n ≡ contains ns n
  contains-sort ns n =
      some_of-tally (λ m. str_eq m n) (sort str_lt ns)
      ∙ ap (ltb 0) (tally-sort str_lt (λ m. str_eq m n) ns)
      ∙ sym (some_of-tally (λ m. str_eq m n) ns)

  no-IsCycle : (d : List String) → search graph ≡ finished d → (c : List String) → ¬ IsCycle graph c
  unfolding search
  no-IsCycle d e c (n, middle, same, walk) =
      let (t, _, all) =
        visit_all-finished (visit graph (suc (length graph)) [])
          (λ d n r. visit-finished (suc (length graph)) [] d n r) [] (sort str_lt (keys graph)) d tt
          e in
      let key : contains (sort str_lt (keys graph)) n ≡ true =
        contains-sort (keys graph) n ∙ walk-has_key n middle n walk in
      let has = All-member (λ m. contains d m ≡ true) (sort str_lt (keys graph)) n all key in
      let less = rank_walk d n middle n t has walk in omega arith

  -- The search returns the empty list exactly if the graph has no cycle; otherwise it returns one, a
  -- closed walk along edges between keys of the graph.
  pub first_cycle_iff :
      ((first_cycle graph ≡ []) ↔ ((c : List String) → ¬ IsCycle graph c))
      × (first_cycle graph ≢ [] → IsCycle graph (first_cycle graph))
  first_cycle_iff = elim (first_cycle-cases graph (search-ends graph)) [
    | inl (c, e, same) ↦
        let cycle : IsCycle graph (first_cycle graph) = rw same (search-IsCycle graph c e) in
        (
          (
            λ empty. absurd (not_empty empty cycle),
            λ none. absurd (none (first_cycle graph) cycle),
          ),
          λ _. cycle,
        )
    | inr (d, e, same) ↦ ((λ _. no-IsCycle d e, λ _. same), λ some. absurd (some same))
  ]
    where
      not_empty : first_cycle graph ≡ [] → IsCycle graph (first_cycle graph) → ⊥
      not_empty empty (n, middle, is, walk) = cc
