-- ===== src/Baseline/Outlier.antt =====
-- The ranking of deviations, internal/outlier/outlier.go, and `Normalize` of
-- internal/confounder/confounder.go.
use codex_prompt_better.Base.{
  ◌≡◌, refl, ◌∙◌, String, Bool, true, false, not, ◌||◌, if◌then◌else◌, List, [], ◌∷◌, Option, none,
  some, length, take, length-take, tally, All, All-take, Bool-cases, Option-cases, ap, ◌⊎◌, inl,
  inr, min, arith,
}
use codex_prompt_better.Base.Text.{str_lt}
use codex_prompt_better.Base.Floats.{Floats, Arithmetic, float_le}
use codex_prompt_better.Base.Sorting.{sort, All-sort, length-sort}
use codex_prompt_better.Metrics.Compute.{MetricResult}
use codex_prompt_better.Baseline.{with_value}

module _ (floats : Floats) where
  open floats use {F, finite, eq, lt}

  -- `contracts.NativeOutlier`; its value and magnitude are always there.
  pub record NativeOutlier : Type 0 where
    pub metric : String
    pub native_value : F
    pub native_unit : String
    pub direction : String
    pub magnitude : F

  module _ (arithmetic : Arithmetic floats) where
    open arithmetic use {zero as nought, sub, div, abs}

    -- The outlier of a metric, if the loop does not skip it.
    unfoldable pub outlier_of : MetricResult floats → Option NativeOutlier
    outlier_of m = with_value m.native_value (λ v. with_value m.rolling_median (λ center.
        with_value m.rolling_mad (λ mad.
          if not (finite v) || not (finite center) || not (finite mad) || float_le floats mad nought
          then none
          else some (record {
            metric = m.name;
            native_value = v;
            native_unit = m.native_unit;
            direction = if lt v center then "lower" else "higher";
            magnitude = div (abs (sub v center)) mad;
          }))))

    abbrev attach : Option NativeOutlier → List NativeOutlier → List NativeOutlier
    attach none os = os
    attach (some o) os = o ∷ os

    unfoldable pub outliers : List (MetricResult floats) → List NativeOutlier
    unfolding outlier_of
    outliers [] = []
    outliers (m ∷ ms) = attach (outlier_of m) (outliers ms)

    abbrev pub ranks_before : NativeOutlier → NativeOutlier → Bool
    ranks_before a b =
        if eq a.magnitude b.magnitude then str_lt a.metric b.metric else lt b.magnitude a.magnitude

    unfoldable pub rank : List (MetricResult floats) → List NativeOutlier
    unfolding outliers sort
    rank metrics = take 10 (sort ranks_before (outliers metrics))

    -- The metrics with finite statistics and a spread.
    abbrev pub is_ranked : Option F → Option F → Option F → Bool
    is_ranked (some v) (some center) (some mad) =
        not
          (not (finite v) || not (finite center) || not (finite mad) || float_le floats mad nought)
    is_ranked _ _ _ = false

    abbrev pub is_outlier : MetricResult floats → Bool
    is_outlier m = is_ranked m.native_value m.rolling_median m.rolling_mad

    -- An outlier states the deviation of one of the metrics in units of its own spread.
    abbrev pub IsDeviation : (MetricResult floats → Type 0) → NativeOutlier → Type 0
    IsDeviation P o =
        (m : MetricResult floats) × (center : F) × (mad : F) × P m
        × (m.name ≡ o.metric)
        × (m.native_value ≡ some o.native_value)
        × (m.rolling_median ≡ some center)
        × (m.rolling_mad ≡ some mad)
        × (is_outlier m ≡ true)
        × (o.magnitude ≡ div (abs (sub o.native_value center)) mad)

    outlier_of-IsDeviation :
        (P : MetricResult floats → Type 0) (m : MetricResult floats)
        → P m
        → ((outlier_of m ≡ none) × (is_outlier m ≡ false))
          ⊎ ((o : NativeOutlier) × (outlier_of m ≡ some o)
              × (is_outlier m ≡ true)
              × IsDeviation P o)
    unfolding outlier_of
    outlier_of-IsDeviation P m h = elim (Option-cases m.native_value) [
      | inl e ↦ inl (rw (outlier_of, e) refl, rw e refl)
      | inr (v, ev) ↦ elim (Option-cases m.rolling_median) [
        | inl e ↦ inl (rw (outlier_of, ev, e) refl, rw (ev, e) refl)
        | inr (center, ec) ↦ elim (Option-cases m.rolling_mad) [
          | inl e ↦ inl (rw (outlier_of, ev, ec, e) refl, rw (ev, ec, e) refl)
          | inr (mad, ed) ↦
              let skips =
                not (finite v)
                || not (finite center)
                || not (finite mad)
                || float_le floats mad nought in
              elim (Bool-cases skips) [
                | inl s ↦ inl (rw (outlier_of, ev, ec, ed, s) refl, rw (ev, ec, ed, s) refl)
                | inr s ↦
                    let ranked : is_outlier m ≡ true = rw (ev, ec, ed, s) refl in
                    inr (
                      record {
                        metric = m.name;
                        native_value = v;
                        native_unit = m.native_unit;
                        direction = if lt v center then "lower" else "higher";
                        magnitude = div (abs (sub v center)) mad;
                      },
                      rw (outlier_of, ev, ec, ed, s) refl,
                      ranked,
                      (m, center, mad, h, refl, ev, ec, ed, ranked, refl),
                    )
              ]
        ]
      ]
    ]

    outliers-IsDeviation :
        (P : MetricResult floats → Type 0) (ms : List (MetricResult floats))
        → All P ms
        → (length (outliers ms) ≡ tally is_outlier ms) × All (IsDeviation P) (outliers ms)
    unfolding outliers
    outliers-IsDeviation P [] h = (refl, tt)
    outliers-IsDeviation P (m ∷ ms) h =
        let (l, all) = outliers-IsDeviation P ms h.1 in
        elim (outlier_of-IsDeviation P m h.0) [
          | inl (e, k) ↦ rw (e, k) (omega (arith, l), all)
          | inr (o, e, k, d) ↦ rw (e, k) (omega (arith, l), (d, all))
        ]

    -- As many outliers are ranked as there are metrics with finite statistics and a positive spread,
    -- but ten at most, and each is the deviation of one of the metrics in units of its spread.
    pub rank-IsDeviation :
        (P : MetricResult floats → Type 0) (ms : List (MetricResult floats))
        → All P ms
        → (length (rank ms) ≡ min 10 (tally is_outlier ms)) × All (IsDeviation P) (rank ms)
    unfolding rank
    rank-IsDeviation P ms h =
        let (l, all) = outliers-IsDeviation P ms h in
        let sorted = sort ranks_before (outliers ms) in
        (
          length-take 10 sorted ∙ ap (min 10) (length-sort ranks_before (outliers ms) ∙ l),
          All-take (IsDeviation P) 10 sorted
              (All-sort ranks_before (IsDeviation P) (outliers ms) all),
        )
