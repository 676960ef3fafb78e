-- ===== src/Replay/Outcomes.antt =====
-- The outcome of a comparison as a statement about all its statuses.
use mathlib.Core.Path.{subst}
use codex_prompt_better.Base.{
  String, Bool, true, false, ◌||◌, if◌then◌else◌, str_eq, List, [], ◌∷◌, ◌++◌, map, some_of, ok,
  ◌>>=◌, >>=-eq-ok, ok-injective, if-eq-ok, require, ◌≡◌, refl, sym, ap, arith, Option,
}
use codex_prompt_better.Base.Floats.{Floats}
use codex_prompt_better.Contracts.{MetricStatus, improved, worsened, mixed, insufficient}
use codex_prompt_better.Replay.Metric.{
  Polarity, Outcome, unchanged, improvement, mixture, regression, merge_outcome, quality_gate_state,
  Metric,
}
use codex_prompt_better.Replay.Compare.{
  Audit, Comparison, Progress, compare_next, compare_loop, compare_missing, compare, index_baseline,
  conclude, begin, compare_indexed, has_revisions, revisions_required,
}

abbrev pub is_worsened : MetricStatus → Bool
is_worsened worsened = true
is_worsened _ = false

abbrev pub is_doubtful : MetricStatus → Bool
is_doubtful mixed = true
is_doubtful insufficient = true
is_doubtful _ = false

abbrev pub is_improved : MetricStatus → Bool
is_improved improved = true
is_improved _ = false

-- The outcome as a statement about all statuses at once.
abbrev pub outcome_of : List MetricStatus → Outcome
outcome_of statuses =
    if some_of is_worsened statuses
    then regression
    else if some_of is_doubtful statuses
    then mixture
    else if some_of is_improved statuses
    then improvement
    else unchanged

some_of-snoc {ℓ} :
    {A : Type ℓ} (p : A → Bool) (xs : List A) (x : A)
    → some_of p (xs ++ x ∷ []) ≡ (some_of p xs || p x)
some_of-snoc p [] x = ground arith
some_of-snoc p (y ∷ ys) x = ground (arith, some_of-snoc p ys x)

merge_outcome-snoc :
    (ss : List MetricStatus) (s : MetricStatus)
    → merge_outcome (outcome_of ss) s ≡ outcome_of (ss ++ s ∷ [])
unfolding merge_outcome
merge_outcome-snoc ss s = ground (
  arith,
  some_of-snoc is_worsened ss s,
  some_of-snoc is_doubtful ss s,
  some_of-snoc is_improved ss s,
)

abbrev pub second : String × MetricStatus → MetricStatus
second (name, status) = status

map-second-snoc :
    (ps : List (String × MetricStatus)) (name : String) (s : MetricStatus)
    → map second (ps ++ (name, s) ∷ []) ≡ map second ps ++ s ∷ []
map-second-snoc [] name s = refl
map-second-snoc (p ∷ ps) name s = ap (◌∷◌ (second p)) (map-second-snoc ps name s)

module _ (floats : Floats) (definitions : String → Option Polarity) where
  abbrev InStep : List (String × MetricStatus) → Outcome → Type 0
  InStep statuses outcome = outcome ≡ outcome_of (map second statuses)

  step-InStep :
      (statuses : List (String × MetricStatus)) (outcome : Outcome) (name : String)
      (s : MetricStatus)
      → InStep statuses outcome
      → InStep (statuses ++ (name, s) ∷ []) (merge_outcome outcome s)
  step-InStep statuses outcome name s h =
      rw (map-second-snoc statuses name s, h) (merge_outcome-snoc (map second statuses) s)

  compare_next-InStep :
      (m : Metric floats) (p p' : Progress floats definitions)
      → compare_next floats definitions m p ≡ ok p'
      → InStep p.statuses p.outcome
      → InStep p'.statuses p'.outcome
  unfolding compare_next
  compare_next-InStep m p p' e h =
      let (_, made) = if-eq-ok (some_of (λ s. str_eq s m.name) p.seen) _ _ e in
      rw (← ok-injective made) (step-InStep p.statuses p.outcome m.name _ h)

  compare_loop-InStep :
      (ms : List (Metric floats)) (p p' : Progress floats definitions)
      → compare_loop floats definitions ms p ≡ ok p'
      → InStep p.statuses p.outcome
      → InStep p'.statuses p'.outcome
  unfolding compare_loop
  compare_loop-InStep [] p p' e h = ground arith
  compare_loop-InStep (m ∷ ms) p p' e h =
      let (q, first, rest) = >>=-eq-ok (compare_next floats definitions m p) _ e in
      compare_loop-InStep ms q p' rest (compare_next-InStep m p q first h)

  compare_missing-InStep :
      (ms : List (Metric floats)) (statuses : List (String × MetricStatus)) (outcome : Outcome)
      → InStep statuses outcome
      → InStep
          (compare_missing floats definitions ms statuses outcome).0
          (compare_missing floats definitions ms statuses outcome).1
  unfolding compare_missing
  compare_missing-InStep [] statuses outcome h = h
  compare_missing-InStep (m ∷ ms) statuses outcome h =
      compare_missing-InStep ms (statuses ++ (m.name, insufficient) ∷ [])
        (merge_outcome outcome insufficient) (step-InStep statuses outcome m.name insufficient h)

  module _ (baseline candidate : Audit floats definitions) (c : Comparison floats definitions)
      (compared : compare floats definitions baseline candidate ≡ ok c) where
    -- A comparison is concluded from what the loops have made.
    pub compare-inv :
        (indexed : List (Metric floats)) × (p : Progress floats definitions) × (index_baseline
            floats definitions baseline.metrics []
          ≡ ok indexed)
        × (compare_loop floats definitions candidate.metrics (begin floats definitions indexed)
            ≡ ok p)
        × (conclude floats definitions baseline candidate p ≡ c)
    unfolding compare
    compare-inv =
        let next = compare_indexed floats definitions baseline candidate in
        let (_, _, e) =
          >>=-eq-ok
            (require (has_revisions floats definitions baseline candidate) revisions_required)
            (λ _. index_baseline floats definitions baseline.metrics [] >>= next) compared in
        let (indexed, made, e') =
          >>=-eq-ok (index_baseline floats definitions baseline.metrics []) next e in
        let (p, ran, e'') =
          >>=-eq-ok
            (compare_loop floats definitions candidate.metrics (begin floats definitions indexed))
            (λ p. ok (conclude floats definitions baseline candidate p)) e' in
        (indexed, p, made, ran, ok-injective e'')

    -- The outcome of a comparison is that of its statuses taken together, in whatever order they
    -- were merged: a regression if any metric worsened, else mixed if any is mixed or insufficient,
    -- else an improvement if any improved, else unchanged.
    pub compare-outcome_of : c.outcome ≡ outcome_of (map second c.statuses)
    unfolding conclude
    compare-outcome_of =
        let (indexed, p, _, ran, same) = compare-inv in
        subst (λ (k : Comparison floats definitions). InStep k.statuses k.outcome) same
          (compare_missing-InStep p.left p.statuses p.outcome
            (compare_loop-InStep candidate.metrics (begin floats definitions indexed) p ran refl))

    pub compare-gate : c.quality_gate_state ≡ quality_gate_state candidate.guardrails
    unfolding conclude
    compare-gate =
        let (_, _, _, _, same) = compare-inv in
        sym (ap (λ (k : Comparison floats definitions). k.quality_gate_state) same)
