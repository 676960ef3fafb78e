-- ===== src/Boundary/Cycle/Cases.antt =====
-- How a visit comes to its end, case by case.
use codex_prompt_better.Base.{
  ℕ, suc, ◌≡◌, ◌≢◌, refl, String, true, false, List, [], ◌∷◌, ◌++◌, ◌⊎◌, inl, inr,
}
use codex_prompt_better.Boundary.Cycle.Search.{
  Graph, contains, Visit, found, finished, out_of_fuel, from, leave, go_on, visit_all, nexts, visit,
  search, first_cycle, cycle_of,
}

pub go_on-found :
    (v : Visit) (next : List String → Visit) (c : List String)
    → go_on v next ≡ found c
    → (v ≡ found c) ⊎ ((d : List String) × (v ≡ finished d) × (next d ≡ found c))
go_on-found (found cycle) next c e = inl e
go_on-found (finished done) next c e = inr (done, refl, e)
go_on-found out_of_fuel next c e = cc

pub go_on-finished :
    (v : Visit) (next : List String → Visit) (r : List String)
    → go_on v next ≡ finished r
    → (d : List String) × (v ≡ finished d) × (next d ≡ finished r)
go_on-finished (found cycle) next r e = cc
go_on-finished (finished done) next r e = (done, refl, e)
go_on-finished out_of_fuel next r e = cc

pub leave-found :
    (node : String) (v : Visit) (c : List String) → leave node v ≡ found c → v ≡ found c
leave-found node (found cycle) c e = e
leave-found node (finished done) c e = cc
leave-found node out_of_fuel c e = cc

pub leave-finished :
    (node : String) (v : Visit) (r : List String)
    → leave node v ≡ finished r
    → (d : List String) × (v ≡ finished d) × (r ≡ node ∷ d)
leave-finished node (found cycle) r e = cc
leave-finished node (finished done) r e = (done, refl, cc)
leave-finished node out_of_fuel r e = cc

module _ (graph : Graph) (fuel : ℕ) (stack done : List String) (node : String) where
  pub visit-back :
      contains stack node ≡ true
      → visit graph (suc fuel) stack done node ≡ found (from node stack ++ node ∷ [])
  unfolding visit
  visit-back back = rw (visit, back) refl

  pub visit-over :
      contains stack node ≡ false
      → contains done node ≡ true
      → visit graph (suc fuel) stack done node ≡ finished done
  unfolding visit
  visit-over fresh over = rw (visit, fresh, over) refl

  pub visit-new :
      contains stack node ≡ false
      → contains done node ≡ false
      → visit graph (suc fuel) stack done node
        ≡ leave node (visit_all (visit graph fuel (stack ++ node ∷ [])) done (nexts graph node))
  unfolding visit
  visit-new fresh new = rw (visit, fresh, new) refl

cycle_of-cases :
    (v : Visit)
    → v ≢ out_of_fuel
    → ((c : List String) × (v ≡ found c) × (cycle_of v ≡ c))
      ⊎ ((d : List String) × (v ≡ finished d) × (cycle_of v ≡ []))
cycle_of-cases (found c) h = inl (c, refl, refl)
cycle_of-cases (finished d) h = inr (d, refl, refl)
cycle_of-cases out_of_fuel h = absurd (h refl)

pub first_cycle-cases :
    (graph : Graph)
    → search graph ≢ out_of_fuel
    → ((c : List String) × (search graph ≡ found c) × (first_cycle graph ≡ c))
      ⊎ ((d : List String) × (search graph ≡ finished d) × (first_cycle graph ≡ []))
unfolding first_cycle
first_cycle-cases graph h = cycle_of-cases (search graph) h
