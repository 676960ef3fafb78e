-- ===== src/Baseline.antt =====
-- The comparison of a metric with its baselines, internal/baseline/baseline.go. `none` stands for an
-- index out of range, which panics.
pub mod Laws
pub mod Outlier
pub mod Confounder
use codex_prompt_better.Base.{
  ℕ, zero, suc, ◌-◌, ◌/◌, ◌%◌, ◌==◌, String, Bool, true, false, not, ◌&&◌, ◌||◌, if◌then◌else◌,
  str_eq, ltb, leb, length, List, [], ◌∷◌, map, Option, none, some,
}
use codex_prompt_better.Base.Floats.{Floats, Arithmetic, float_le}
use codex_prompt_better.Base.Integers.{ℤ, pos, int_lt}
use codex_prompt_better.Base.Sorting.{sort}
use codex_prompt_better.Contracts.{
  CoverageState, is_complete, improved, worsened, flat, mixed, insufficient,
}
use codex_prompt_better.Replay.Metric.{Polarity, contextual, lower_better, guardrail}
use codex_prompt_better.Metrics.Table.{Definition}
use codex_prompt_better.Metrics.Compute.{MetricResult}

abbrev pub get_elem? {ℓ} : {A : Type ℓ} → List A → ℕ → Option A
get_elem? [] i = none
get_elem? (x ∷ xs) zero = some x
get_elem? (x ∷ xs) (suc i) = get_elem? xs i

-- The rest of a function runs on the value.
abbrev pub with_value {ℓ κ} : {A : Type ℓ} {B : Type κ} → Option A → (A → Option B) → Option B
with_value none rest = none
with_value (some a) rest = rest a

abbrev pub is_contextual : Polarity → Bool
is_contextual contextual = true
is_contextual _ = false

abbrev pub lower_is_better : Polarity → String → Bool
lower_is_better lower_better name = true
lower_is_better guardrail name = str_eq name "tool_error_rate"
lower_is_better _ name = false

module _ (floats : Floats) where
  open floats use {F, finite, eq, lt}

  pub record Window : Type 0 where
    pub value : Option F
    pub coverage : CoverageState
    pub metric_version : String
    pub comparable : Bool
    pub guardrails_pass : Bool

  pub record Comparison : Type 0 where
    pub previous : Window
    pub rolling : List Window
    pub seasonal : List Window
    pub workload_expected : Option F
    pub confounders_matched : Bool
    pub hysteresis_active : Bool
    pub persistence_count : ℤ
    pub privacy_suppressed : Bool

  -- The value of a window that `compatible` accepts.
  abbrev pub compatible_value : MetricResult floats → Window → Option F
  compatible_value current w = elim w.value [
    | none ↦ none
    | some v ↦
        if finite v
          && is_complete w.coverage
          && str_eq w.metric_version current.version
          && w.comparable
        then some v
        else none
  ]

  abbrev attach : Option F → List F → List F
  attach none vs = vs
  attach (some v) vs = v ∷ vs

  unfoldable pub compatible_values : MetricResult floats → List Window → List F
  compatible_values current [] = []
  compatible_values current (w ∷ ws) =
      attach (compatible_value current w) (compatible_values current ws)

  module _ (arithmetic : Arithmetic floats) where
    open arithmetic use {
      zero as nought, hundredths, of_int, sub, add, mul, div, abs, signbit, infinite,
    }

    unfoldable pub median : List F → Option F
    unfolding sort
    median values =
        let sorted = sort lt values in
        let middle = length sorted / 2 in
        if length sorted % 2 == 0
        then with_value (get_elem? sorted (middle - 1))
            (λ a. with_value (get_elem? sorted middle) (λ b. some (div (add a b) (of_int (pos 2)))))
        else get_elem? sorted middle

    -- The absolute change, and the relative one.
    abbrev pub change : F → F → F × Option F
    change current baseline =
        let absolute = sub current baseline in
        (absolute, if eq baseline nought then none else some (div absolute baseline))

    unfoldable pub relative_effect : F → F → F
    relative_effect current baseline =
        if eq baseline nought
        then if eq current nought then nought else infinite current
        else div (sub current baseline) baseline

    abbrev pub signs_conflict : F → F → Bool
    signs_conflict first second =
        not (eq first nought)
        && not (eq second nought)
        && (if signbit first then not (signbit second) else signbit second)

    unfoldable pub confidence : ℕ → F → F → String
    confidence sample mad m =
        if leb 7 sample && (eq m nought || float_le floats (div mad (abs m)) (hundredths 10))
        then "high"
        else if leb 3 sample
        then "medium"
        else "low"

    -- The threshold of the definition, or the noise of the baseline where that is larger.
    abbrev pub noise : Definition → F → F → F
    noise d m mad =
        if not (eq m nought) && lt (hundredths d.practical_change) (div mad m)
        then div mad m
        else hundredths d.practical_change

    -- What `Apply` records of the baseline, before it judges: lines 71 to 82.
    abbrev pub record_baseline :
        MetricResult floats → F → F → Comparison → List F → F → F → MetricResult floats
    record_baseline current v p c values m mad =
        let (previous, previous_ratio) = change v p in
        let (rolling, rolling_ratio) = change v m in
        record current {
          previous_value = some p;
          rolling_median = some m;
          rolling_mad = some mad;
          baseline_sample_count = length values;
          absolute_change_previous = some previous;
          percentage_change_previous = previous_ratio;
          absolute_change_rolling = some rolling;
          percentage_change_rolling = rolling_ratio;
          workload_adjusted_residual = elim c.workload_expected [
            | none ↦ current.workload_adjusted_residual
            | some expected ↦ some (sub v expected)
          ];
        }

    -- The judgement, lines 83 to 130.
    unfoldable pub judge :
        MetricResult floats → F → F → Definition → Comparison → List F → F → F → MetricResult floats
    unfolding relative_effect confidence
    judge r v p d c values m mad =
        let effect_previous = relative_effect v p in
        let effect_rolling = relative_effect v m in
        let sure = confidence (length values) mad m in
        let bound = noise d m mad in
        if not c.previous.guardrails_pass
        then record r { status_reason = "guardrail_regressed_or_unknown" }
        else if not c.confounders_matched
        then record r { status = mixed; status_reason = "confounder_unmatched"; confidence = "low" }
        else if float_le floats (abs effect_previous) bound
            && float_le floats (abs effect_rolling) bound
        then record r {
          status = flat;
          status_reason = "within_practical_or_noise_threshold";
          confidence = sure;
        }
        else if signs_conflict effect_previous effect_rolling || is_contextual d.polarity
        then record r {
          status = mixed;
          status_reason = "contextual_or_baselines_conflict";
          confidence = sure;
        }
        else if c.hysteresis_active || int_lt c.persistence_count (pos d.minimum_persistence)
        then record r {
          status = flat;
          status_reason = "hysteresis_or_persistence";
          confidence = "medium";
        }
        else record r {
          status =
              if if lower_is_better d.polarity r.name
                then lt effect_rolling nought
                else lt nought effect_rolling
              then improved
              else worsened;
          status_reason = "meaningful_matched_change";
          confidence = sure;
        }

    -- Against the values of a baseline.
    unfoldable pub compare_with :
        MetricResult floats
        → F
        → F
        → Definition
        → Comparison
        → List F
        → Option (MetricResult floats)
    unfolding median judge
    compare_with current v p d c values = with_value (median values) (λ m.
        with_value (median (map (λ x. abs (sub x m)) values))
          (λ mad. some (judge (record_baseline current v p c values m mad) v p d c values m mad)))

    -- The baseline is the rolling one, or the seasonal one where that is too short.
    unfoldable pub choose_baseline :
        MetricResult floats → F → F → Definition → Comparison → Option (MetricResult floats)
    unfolding compatible_values compare_with
    choose_baseline current v p d c =
        let rolling = compatible_values current c.rolling in
        let seasonal = compatible_values current c.seasonal in
        if ltb (length rolling) 3
        then if ltb (length seasonal) 3
          then some (record current {
            status_reason = "baseline_sample_not_met";
            baseline_sample_count = length rolling;
          })
          else compare_with (record current { status_reason = "seasonal_last_n_fallback" }) v p d c
              seasonal
        else compare_with current v p d c rolling

    -- `Apply` for a value, lines 40 to 53 and the rest.
    unfoldable pub apply_value :
        MetricResult floats → Option F → Definition → Comparison → Option (MetricResult floats)
    unfolding choose_baseline
    apply_value current none d c = some (record current { status_reason = "current_incomplete" })
    apply_value current (some v) d c =
        if not (finite v) || not (is_complete current.coverage)
        then some (record current { status_reason = "current_incomplete" })
        else if c.privacy_suppressed
        then some
            (record current { status_reason = "privacy_suppressed"; uncertainty = "small_cohort" })
        else elim (compatible_value current c.previous) [
          | none ↦ some (record current { status_reason = "previous_incompatible" })
          | some p ↦ choose_baseline current v p d c
        ]

    abbrev pub reset : MetricResult floats → Definition → MetricResult floats
    reset m d = record m {
      practical_threshold = hundredths d.practical_change;
      status = insufficient;
      status_reason = "comparison_unavailable";
      confidence = "unknown";
    }

    unfoldable pub apply :
        MetricResult floats → Definition → Comparison → Option (MetricResult floats)
    unfolding apply_value
    apply m d c = apply_value (reset m d) m.native_value d c
