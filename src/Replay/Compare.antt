-- ===== src/Replay/Compare.antt =====
-- `Compare` of replay.go. The maps from names to metrics are association lists, whose order the
-- result does not show; the definitions of the metrics are a function of the name.
use codex_prompt_better.Base.{
  String, Bool, not, ◌||◌, if◌then◌else◌, str_eq, Option, none, some, List, [], ◌∷◌, ◌++◌, some_of,
  keep, Result, ok, err, ◌>>=◌, ◌>>◌, require,
}
use codex_prompt_better.Base.Floats.{Floats}
use codex_prompt_better.Contracts.{MetricStatus, insufficient}
use codex_prompt_better.Replay.Metric.{
  Polarity, Outcome, unchanged, GateState, merge_outcome, quality_gate_state, Metric,
  compare_metric,
}

pub data Failure : Type 0 where
  revisions_required baseline_not_unique candidate_not_unique : Failure

module _ (floats : Floats) (definitions : String → Option Polarity) where
  -- The fields of `contracts.AuditProjectResult` that `Compare` reads.
  pub record Audit : Type 0 where
    pub revision_hash : String
    pub metrics : List (Metric floats)
    pub guardrails : List GateState

  pub record Comparison : Type 0 where
    pub baseline_hash : String
    pub candidate_hash : String
    pub statuses : List (String × MetricStatus)
    pub outcome : Outcome
    pub quality_gate_state : GateState

  abbrev pub names : Metric floats → String → Bool
  names m name = str_eq m.name name

  abbrev pub find_metric : String → List (Metric floats) → Option (Metric floats)
  find_metric name [] = none
  find_metric name (m ∷ ms) = if names m name then some m else find_metric name ms

  abbrev pub delete_metric : String → List (Metric floats) → List (Metric floats)
  delete_metric name = keep (λ m. not (names m name))

  -- The loop over `baseline.Metrics`.
  unfoldable pub index_baseline :
      List (Metric floats) → List (Metric floats) → Result Failure (List (Metric floats))
  index_baseline [] indexed = ok indexed
  index_baseline (m ∷ ms) indexed =
      if some_of (λ i. names i m.name) indexed
      then err baseline_not_unique
      else index_baseline ms (indexed ++ m ∷ [])

  -- The prior and the polarity, where both are known.
  abbrev pub prior_of : List (Metric floats) → String → Option (Metric floats × Polarity)
  prior_of indexed name = elim (find_metric name indexed) [
    | none ↦ none
    | some prior ↦ elim (definitions name) [ none ↦ none | some p ↦ some (prior, p) ]
  ]

  -- The variables of the loop over `candidate.Metrics`.
  pub record Progress : Type 0 where
    pub seen : List String
    pub left : List (Metric floats)
    pub statuses : List (String × MetricStatus)
    pub outcome : Outcome

  unfoldable pub compare_next : Metric floats → Progress → Result Failure Progress
  compare_next current p =
      if some_of (λ s. str_eq s current.name) p.seen
      then err candidate_not_unique
      else let status = compare_metric floats (prior_of p.left current.name) current in
        ok (record {
          seen = current.name ∷ p.seen;
          left = delete_metric current.name p.left;
          statuses = p.statuses ++ (current.name, status) ∷ [];
          outcome = merge_outcome p.outcome status;
        })

  unfoldable pub compare_loop : List (Metric floats) → Progress → Result Failure Progress
  compare_loop [] p = ok p
  compare_loop (current ∷ rest) p = compare_next current p >>= compare_loop rest

  -- The loop over what is left of the baseline.
  unfoldable pub compare_missing :
      List (Metric floats)
      → List (String × MetricStatus)
      → Outcome
      → List (String × MetricStatus) × Outcome
  compare_missing [] statuses outcome = (statuses, outcome)
  compare_missing (m ∷ ms) statuses outcome =
      compare_missing ms (statuses ++ (m.name, insufficient) ∷ [])
        (merge_outcome outcome insufficient)

  -- The comparison that the loop's end gives, with the rest of the baseline.
  unfoldable pub conclude : Audit → Audit → Progress → Comparison
  conclude baseline candidate p =
      let (statuses, outcome) = compare_missing p.left p.statuses p.outcome in
      record {
        baseline_hash = baseline.revision_hash;
        candidate_hash = candidate.revision_hash;
        statuses = statuses;
        outcome = outcome;
        quality_gate_state = quality_gate_state candidate.guardrails;
      }

  abbrev pub begin : List (Metric floats) → Progress
  begin indexed = record { seen = []; left = indexed; statuses = []; outcome = unchanged }

  abbrev pub compare_indexed : Audit → Audit → List (Metric floats) → Result Failure Comparison
  compare_indexed baseline candidate indexed =
      compare_loop candidate.metrics (begin indexed) >>= λ p. ok (conclude baseline candidate p)

  abbrev pub has_revisions : Audit → Audit → Bool
  has_revisions baseline candidate =
      not (str_eq baseline.revision_hash "" || str_eq candidate.revision_hash "")

  unfoldable pub compare : Audit → Audit → Result Failure Comparison
  compare baseline candidate =
      require (has_revisions baseline candidate) revisions_required
      >> (index_baseline baseline.metrics [] >>= compare_indexed baseline candidate)
