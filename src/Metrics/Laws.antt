-- ===== src/Metrics/Laws.antt =====
-- What a result of `Compute` may say.
use mathlib.Core.Path.{subst}
use codex_prompt_better.Base.{
  ℕ, suc, ◌≡◌, refl, sym, ◌∙◌, ◌⊎◌, inl, inr, String, Bool, true, false, not, ◌&&◌, ◌||◌, str_eq,
  List, [], ◌∷◌, Option, none, some, Result, ok, err, length, All, ltb, ap, Bool-cases,
  Option-cases, arith,
}
use codex_prompt_better.Base.Text.{str_lt_asym, str_lt_weak}
use codex_prompt_better.Base.Floats.{Floats, Arithmetic}
use codex_prompt_better.Base.Integers.{ℤ, pos, negsuc, int_lt}
use codex_prompt_better.Base.Sorting.{
  All-sort, IsOrdered, IsStrictWeak, length-sort, sort-IsOrdered,
}
use codex_prompt_better.Contracts.{is_complete, flat, insufficient}
use codex_prompt_better.Metrics.Table.{Definition, definition}
use codex_prompt_better.Metrics.Compute.{
  Input, MetricResult, Failure, inconsistent, unknown_definition, invalid_counts,
  invalid_measurements, ratio_of, hundredfold, stands_before, answer, every, ratio, per_hundred,
  measurements, compute,
}

module _ (floats : Floats) where
  abbrev pub is_sample : MetricResult floats → Bool
  is_sample r = is_complete r.coverage && int_lt (pos 0) r.sample_count

  -- A value stands for a complete sample that is not empty; without one nothing is claimed.
  abbrev pub IsSupported : MetricResult floats → Type 0
  IsSupported r =
      ((r.native_value ≡ none)
        × (r.numerator ≡ none)
        × (r.denominator ≡ none)
        × (r.status ≡ insufficient))
      ⊎ ((is_sample r ≡ true) × (r.status ≡ flat))

  by_name-weak : IsStrictWeak (stands_before floats)
  by_name-weak = record {
    asym = λ a b h. str_lt_asym a.name b.name h;
    weak = λ a b c h k. str_lt_weak a.name b.name c.name h k;
  }

  module _ (arithmetic : Arithmetic floats) where
    at_least : (m : ℕ) (n : ℤ) → ltb 0 m ≡ true → int_lt n (pos m) ≡ false → int_lt (pos 0) n ≡ true
    at_least m (pos n) e h = ground arith
    at_least m (negsuc n) e h = cc

    ratio_of-IsSupported :
        (d : Definition) (v : floats.F) (n : ℤ) (i : Input floats)
        → ltb 0 d.minimum_sample ≡ true
        → IsSupported (ratio_of floats arithmetic d v n i)
    unfolding ratio_of
    ratio_of-IsSupported d v n i e = elim (Bool-cases (is_complete i.coverage)) [
      | inr c ↦ rw c (inl (refl, refl, refl, refl))
      | inl c ↦
          elim (Bool-cases
            (str_eq d.name "active_runtime_per_turn" && not i.active_runtime_known)) [
              | inl k ↦ rw (c, k) (inl (refl, refl, refl, refl))
              | inr k ↦ elim (Bool-cases (int_lt n (pos d.minimum_sample))) [
                | inl s ↦ rw (c, k, s) (inl (refl, refl, refl, refl))
                | inr s ↦
                    let positive : int_lt (pos 0) n ≡ true = at_least d.minimum_sample n e s in
                    rw (c, k, s) (inr (rw (c, positive) refl, refl))
              ]
            ]
    ]

    hundredfold-IsSupported :
        (r : MetricResult floats) → IsSupported r → IsSupported (hundredfold floats arithmetic r)
    hundredfold-IsSupported r (inl h) = inl (rw (h.0) refl, h.1, h.2, h.3)
    hundredfold-IsSupported r (inr h) = inr h

    -- The measurement of a name that has a definition with a sample.
    abbrev IsDefined : Option (MetricResult floats) → Type 0
    IsDefined none = ⊥
    IsDefined (some r) = IsSupported r

    abbrev has_sample : Option Definition → Bool
    has_sample none = false
    has_sample (some d) = ltb 0 d.minimum_sample

    ratio-IsDefined :
        (name : String) (v : floats.F) (n : ℤ) (i : Input floats)
        → has_sample (definition name) ≡ true
        → IsDefined (ratio floats arithmetic name v n i)
    unfolding ratio
    ratio-IsDefined name v n i h = elim (Option-cases (definition name)) [
      | inl e ↦ cc
      | inr (d, e) ↦ rw e (ratio_of-IsSupported d v n i (rw (sym (ap has_sample e)) h))
    ]

    per_hundred-IsDefined :
        (name : String) (v n : ℤ) (i : Input floats)
        → has_sample (definition name) ≡ true
        → IsDefined (per_hundred floats arithmetic name v n i)
    unfolding per_hundred
    per_hundred-IsDefined name v n i h =
        let r = ratio floats arithmetic name (arithmetic.of_int v) n i in
        let defined = ratio-IsDefined name (arithmetic.of_int v) n i h in
        elim (Option-cases r) [
          | inl e ↦ elim (subst IsDefined e defined) [ ]
          | inr (m, e) ↦ rw e (hundredfold-IsSupported m (subst IsDefined e defined))
        ]

    every-All :
        (os : List (Option (MetricResult floats)))
        → All IsDefined os
        → (rs : List (MetricResult floats)) × (every os ≡ some rs)
          × (length rs ≡ length os)
          × All IsSupported rs
    every-All [] h = ([], refl, refl, tt)
    every-All (none ∷ os) h = elim h.0 [ ]
    every-All (some r ∷ os) h =
        let (rs, e, l, a) = every-All os h.1 in (r ∷ rs, rw e refl, ap suc l, (h.0, a))

    measurements-IsDefined : (i : Input floats) → All IsDefined (measurements floats arithmetic i)
    unfolding measurements
    measurements-IsDefined i = (
      ratio-IsDefined "scope_attribution_coverage" (arithmetic.of_int i.attributed_turns)
          i.completed_turns i refl,
      (
        ratio-IsDefined "boundary_violation_rate" (arithmetic.of_int i.boundary_violations)
            i.boundary_decisions i refl,
        (
          ratio-IsDefined "checkpoint_completeness" (arithmetic.of_int i.complete_checkpoints)
              i.checkpoints i refl,
          (
            ratio-IsDefined "tokens_per_turn" i.total_tokens i.completed_turns i refl,
            (
              ratio-IsDefined "non_cached_input_per_turn" i.non_cached_input_tokens
                  i.completed_turns i refl,
              (
                per_hundred-IsDefined "passive_waits_per_100_tool_calls" i.passive_wait_calls
                    i.tool_calls i refl,
                (
                  per_hundred-IsDefined "oversized_outputs_per_100_tool_results" i.oversized_results
                      i.tool_results i refl,
                  (
                    per_hundred-IsDefined "repeated_calls_per_100_tool_calls" i.repeated_calls
                        i.tool_calls i refl,
                    (
                      ratio-IsDefined "tool_error_rate" (arithmetic.of_int i.tool_errors)
                          i.tool_calls i refl,
                      (
                        ratio-IsDefined "validation_presence"
                            (arithmetic.of_int i.validated_mutations) i.observable_mutations i refl,
                        (
                          ratio-IsDefined "privacy_redaction_coverage"
                              (arithmetic.of_int i.redacted_evidence) i.accepted_evidence i refl,
                          (
                            ratio-IsDefined "commentary_per_turn"
                                (arithmetic.of_int i.commentary_messages) i.completed_turns i refl,
                            (
                              ratio-IsDefined "wall_clock_runtime_per_turn" i.wall_clock_seconds
                                  i.completed_turns i refl,
                              (
                                ratio-IsDefined "active_runtime_per_turn" i.active_seconds
                                    i.completed_turns i refl,
                                tt,
                              ),
                            ),
                          ),
                        ),
                      ),
                    ),
                  ),
                ),
              ),
            ),
          ),
        ),
      ),
    )

    length-measurements : (i : Input floats) → length (measurements floats arithmetic i) ≡ 14
    unfolding measurements
    length-measurements i = refl

    -- What `Compute` answers.
    abbrev pub IsMeasured : Input floats → Result Failure (List (MetricResult floats)) → Type 0
    IsMeasured i (err unknown_definition) = ⊥
    IsMeasured i (err inconsistent) =
        (invalid_counts floats i || invalid_measurements floats arithmetic i) ≡ true
    IsMeasured i (ok results) =
        ((invalid_counts floats i || invalid_measurements floats arithmetic i) ≡ false)
        × (length results ≡ 14)
        × IsOrdered (stands_before floats) results
        × All IsSupported results

    answer-IsMeasured :
        (i : Input floats) {o : Option (List (MetricResult floats))}
        (results : List (MetricResult floats))
        → (invalid_counts floats i || invalid_measurements floats arithmetic i) ≡ false
        → o ≡ some results
        → length results ≡ 14
        → All IsSupported results
        → IsMeasured i (answer floats o)
    unfolding answer
    answer-IsMeasured i results e defined all supported =
        let before = stands_before floats in
        rw defined (
          e,
          length-sort before results ∙ all,
          sort-IsOrdered by_name-weak results,
          All-sort before IsSupported results supported,
        )

    -- `Compute` never meets a name without a definition. It refuses exactly the inconsistent inputs;
    -- for any other it returns 14 results ordered by name, each of which either has no value, no
    -- numerator and no denominator and is insufficient, or is of complete coverage and a positive
    -- sample.
    pub compute-IsMeasured : (i : Input floats) → IsMeasured i (compute floats arithmetic i)
    unfolding compute
    compute-IsMeasured i =
        elim (Bool-cases (invalid_counts floats i || invalid_measurements floats arithmetic i)) [
          | inl e ↦ rw e e
          | inr e ↦
              let (results, defined, all, supported) =
                every-All (measurements floats arithmetic i) (measurements-IsDefined i) in
              rw e (answer-IsMeasured i results e defined (all ∙ length-measurements i) supported)
        ]
