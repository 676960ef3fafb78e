-- ===== src/Baseline/Laws.antt =====
-- When `Apply` may call a change an improvement or a worsening.
use codex_prompt_better.Base.{
  ℕ, zero, suc, ◌-◌, ◌/◌, ◌%◌, ◌==◌, ◌≤◌, ◌<◌, ◌≡◌, refl, ap, ◌∙◌, ◌⊎◌, inl, inr, Bool, true, false,
  not, ◌&&◌, ◌||◌, ltb, length, length-map, List, [], ◌∷◌, map, some, Bool-cases, Option-cases,
  arith,
}
use codex_prompt_better.Base.Floats.{Floats, Arithmetic, float_le}
use codex_prompt_better.Base.Integers.{pos, int_lt}
use codex_prompt_better.Base.Sorting.{sort, length-sort}
use codex_prompt_better.Contracts.{MetricStatus, is_complete, improved, worsened}
use codex_prompt_better.Metrics.Table.{Definition}
use codex_prompt_better.Metrics.Compute.{MetricResult}
use codex_prompt_better.Baseline.{
  get_elem?, is_contextual, Comparison, compatible_value, compatible_values, median,
  relative_effect, signs_conflict, noise, judge, record_baseline, compare_with, choose_baseline,
  apply_value, reset, apply,
}

abbrev pub claims : MetricStatus → Bool
claims improved = true
claims worsened = true
claims _ = false

get_elem?-some {ℓ} :
    {A : Type ℓ} (xs : List A) (i : ℕ) → i < length xs → (a : A) × (get_elem? xs i ≡ some a)
get_elem?-some [] i h = let impossible : ⊥ = omega arith in elim impossible [ ]
get_elem?-some (x ∷ xs) zero h = (x, refl)
get_elem?-some (x ∷ xs) (suc i) h = get_elem?-some xs i (omega arith)

module _ (floats : Floats) (arithmetic : Arithmetic floats) where
  open floats use {F, finite, eq, lt}
  open arithmetic use {zero as nought, sub, abs}

  median-some :
      (values : List F) → 1 ≤ length values → (m : F) × (median floats arithmetic values ≡ some m)
  unfolding median
  median-some values h =
      let sorted = sort lt values in
      let middle = length sorted / 2 in
      let l = length-sort lt values in
      let (b, eb) = get_elem?-some sorted middle (omega (arith, l)) in
      elim (Bool-cases (length sorted % 2 == 0)) [
        | inl e ↦
            let (a, ea) = get_elem?-some sorted (middle - 1) (omega (arith, l)) in
            (arithmetic.div (arithmetic.add a b) (arithmetic.of_int (pos 2)), rw (e, ea, eb) refl)
        | inr e ↦ (b, rw (e, eb) refl)
      ]

  -- What a claim about a change from the baseline `values` rests on.
  abbrev pub IsSound : F → F → Definition → Comparison floats → List F → F → F → Type 0
  IsSound v p d c values m mad =
      (c.previous.guardrails_pass ≡ true)
      × (c.confounders_matched ≡ true)
      × ((float_le floats (abs (relative_effect floats arithmetic v p))
              (noise floats arithmetic d m mad)
            && float_le floats (abs (relative_effect floats arithmetic v m))
                (noise floats arithmetic d m mad))
          ≡ false)
      × ((signs_conflict floats arithmetic (relative_effect floats arithmetic v p)
              (relative_effect floats arithmetic v m)
            || is_contextual d.polarity)
          ≡ false)
      × ((c.hysteresis_active || int_lt c.persistence_count (pos d.minimum_persistence)) ≡ false)

  judge-IsSound :
      (r : MetricResult floats) (v p : F) (d : Definition) (c : Comparison floats) (values : List F)
      (m mad : F)
      → claims r.status ≡ false
      → (claims (judge floats arithmetic r v p d c values m mad).status ≡ false)
        ⊎ IsSound v p d c values m mad
  unfolding judge
  judge-IsSound r v p d c values m mad h =
      let before = relative_effect floats arithmetic v p in
      let rolling = relative_effect floats arithmetic v m in
      let bound = noise floats arithmetic d m mad in
      elim (Bool-cases c.previous.guardrails_pass) [
        | inr g ↦ inl (rw g h)
        | inl g ↦ elim (Bool-cases c.confounders_matched) [
          | inr k ↦ inl (rw (g, k) refl)
          | inl k ↦
              elim (Bool-cases
                (float_le floats (abs before) bound && float_le floats (abs rolling) bound)) [
                  | inl n ↦ inl (rw (g, k, n) refl)
                  | inr n ↦
                      elim (Bool-cases (
                        signs_conflict floats arithmetic before rolling
                        || is_contextual d.polarity)) [
                          | inl s ↦ inl (rw (g, k, n, s) refl)
                          | inr s ↦
                              elim (Bool-cases (
                                c.hysteresis_active
                                || int_lt c.persistence_count (pos d.minimum_persistence))) [
                                  | inl t ↦ inl (rw (g, k, n, s, t) refl)
                                  | inr t ↦ inr (g, k, n, s, t)
                                ]
                        ]
                ]
        ]
      ]

  -- A baseline of at least three values, its median and the median of the deviations from it.
  abbrev pub IsBaseline : F → F → Definition → Comparison floats → List F → Type 0
  IsBaseline v p d c values =
      (m : F) × (mad : F) × (3 ≤ length values)
      × (median floats arithmetic values ≡ some m)
      × (median floats arithmetic (map (λ x. abs (sub x m)) values) ≡ some mad)
      × IsSound v p d c values m mad

  compare_with-IsSound :
      (r : MetricResult floats) (v p : F) (d : Definition) (c : Comparison floats) (values : List F)
      → claims r.status ≡ false
      → 3 ≤ length values
      → (r' : MetricResult floats) × (compare_with floats arithmetic r v p d c values ≡ some r')
        × ((claims r'.status ≡ false) ⊎ IsBaseline v p d c values)
  unfolding compare_with
  compare_with-IsSound r v p d c values h l =
      let (m, em) = median-some values (omega arith) in
      let (mad, ed) =
        median-some (map (λ x. abs (sub x m)) values)
          (omega (arith, length-map (λ (x : F). abs (sub x m)) values)) in
      let noted = record_baseline floats arithmetic r v p c values m mad in
      (
        judge floats arithmetic noted v p d c values m mad,
        rw (em, ed) refl,
        elim (judge-IsSound noted v p d c values m mad h) [
          | inl quiet ↦ inl quiet
          | inr sound ↦ inr (m, mad, l, em, ed, sound)
        ],
      )

  -- The baseline is the rolling one or, where fewer than three of its windows are compatible, the
  -- seasonal one.
  abbrev pub IsChosen : MetricResult floats → Comparison floats → List F → Type 0
  IsChosen m c values =
      (values ≡ compatible_values floats m c.rolling)
      ⊎ ((length (compatible_values floats m c.rolling) < 3)
          × (values ≡ compatible_values floats m c.seasonal))

  choose_baseline-IsSound :
      (r : MetricResult floats) (v p : F) (d : Definition) (c : Comparison floats)
      → claims r.status ≡ false
      → (r' : MetricResult floats) × (choose_baseline floats arithmetic r v p d c ≡ some r')
        × ((claims r'.status ≡ false)
            ⊎ ((values : List F) × IsChosen r c values × IsBaseline v p d c values))
  unfolding choose_baseline
  choose_baseline-IsSound r v p d c h =
      let rolling = compatible_values floats r c.rolling in
      let seasonal = compatible_values floats r c.seasonal in
      let fallback = record r { status_reason = "seasonal_last_n_fallback" } in
      elim (Bool-cases (ltb (length rolling) 3)) [
        | inr e ↦
            let (r', out, sound) = compare_with-IsSound r v p d c rolling h (ground arith) in
            (
              r',
              rw e out,
              elim sound [ inl quiet ↦ inl quiet | inr s ↦ inr (rolling, inl refl, s) ],
            )
        | inl e ↦ elim (Bool-cases (ltb (length seasonal) 3)) [
          | inl k ↦ (
            record r {
              status_reason = "baseline_sample_not_met";
              baseline_sample_count = length rolling;
            },
            rw (e, k) refl,
            inl h,
          )
          | inr k ↦
              let (r', out, sound) =
                compare_with-IsSound fallback v p d c seasonal h (ground arith) in
              (
                r',
                rw (e, k) out,
                elim sound [
                  | inl quiet ↦ inl quiet
                  | inr s ↦ inr (seasonal, inr (ground arith, refl), s)
                ],
              )
        ]
      ]

  -- What `Apply` needs to call a change an improvement or a worsening.
  abbrev pub IsJustified : MetricResult floats → Definition → Comparison floats → Type 0
  IsJustified m d c =
      (v : F) × (p : F) × (values : List F) × (m.native_value ≡ some v)
      × ((finite v && is_complete m.coverage) ≡ true)
      × (c.privacy_suppressed ≡ false)
      × (compatible_value floats m c.previous ≡ some p)
      × IsChosen m c values
      × IsBaseline v p d c values

  complete_value : (a b : Bool) → (not a || not b) ≡ false → (a && b) ≡ true
  complete_value true true h = refl
  complete_value true false h = cc
  complete_value false b h = cc

  apply_value-chosen :
      (r : MetricResult floats) (v p : F) (d : Definition) (c : Comparison floats)
      → (not (finite v) || not (is_complete r.coverage)) ≡ false
      → c.privacy_suppressed ≡ false
      → compatible_value floats r c.previous ≡ some p
      → apply_value floats arithmetic r (some v) d c ≡ choose_baseline floats arithmetic r v p d c
  unfolding apply_value
  apply_value-chosen r v p d c k s w = rw (k, s, w) refl

  -- `Apply` always returns a result, and the result claims an improvement or a worsening only if
  -- the current value is finite and of complete coverage, privacy suppresses nothing, the previous
  -- window is compatible and has passing guardrails, at least three windows of the rolling (or,
  -- where those are too few, the seasonal) baseline are compatible, the confounders are matched,
  -- one of the two effects exceeds the practical threshold and the noise, the effects have no
  -- opposite signs, the metric is not contextual, and the change has persisted without hysteresis.
  pub apply-IsJustified :
      (m : MetricResult floats) (d : Definition) (c : Comparison floats)
      → (r : MetricResult floats) × (apply floats arithmetic m d c ≡ some r)
        × ((claims r.status ≡ false) ⊎ IsJustified m d c)
  unfolding apply apply_value
  apply-IsJustified m d c =
      let current = reset floats arithmetic m d in
      elim (Option-cases m.native_value) [
        | inl e ↦ (record current { status_reason = "current_incomplete" }, rw e refl, inl refl)
        | inr (v, e) ↦ elim (Bool-cases (not (finite v) || not (is_complete m.coverage))) [
          | inl k ↦
              (record current { status_reason = "current_incomplete" }, rw (e, k) refl, inl refl)
          | inr k ↦ elim (Bool-cases c.privacy_suppressed) [
            | inl s ↦ (
              record current { status_reason = "privacy_suppressed"; uncertainty = "small_cohort" },
              rw (e, k, s) refl,
              inl refl,
            )
            | inr s ↦ elim (Option-cases (compatible_value floats m c.previous)) [
              | inl w ↦ (
                record current { status_reason = "previous_incompatible" },
                rw (e, k, s, w) refl,
                inl refl,
              )
              | inr (p, w) ↦
                  let (r, out, sound) = choose_baseline-IsSound current v p d c refl in
                  (
                    r,
                    ap (λ o. apply_value floats arithmetic current o d c) e
                        ∙ apply_value-chosen current v p d c k s w
                        ∙ out,
                    elim sound [
                      | inl quiet ↦ inl quiet
                      | inr (values, chosen, b) ↦ inr (
                        v,
                        p,
                        values,
                        e,
                        complete_value (finite v) (is_complete m.coverage) k,
                        s,
                        w,
                        chosen,
                        b,
                      )
                    ],
                  )
            ]
          ]
        ]
      ]
