-- ===== src/Baseline/Confounder.antt =====
-- `Normalize` of internal/confounder/confounder.go.
use codex_prompt_better.Base.{
  String, Bool, not, ◌&&◌, ◌||◌, if◌then◌else◌, str_eq, [], ◌∷◌, some_of,
}

pub record Observation : Type 0 where
  pub kind : String
  pub value : String
  pub provenance : String

abbrev pub supported : String → Bool
supported kind =
    some_of (λ k. str_eq k kind)
      ("model" ∷ "tokenizer" ∷ "host" ∷ "tool" ∷ "instruction" ∷ "config" ∷ "memory" ∷ "media" ∷ [])

abbrev pub unknown_observation : String → Observation
unknown_observation k = record { kind = k; value = ""; provenance = "unknown" }

unfoldable pub normalize : String → String → String → Observation
normalize k v p =
    if not (supported k) || str_eq v ""
    then unknown_observation k
    else if not (str_eq p "observed") && not (str_eq p "configured")
    then unknown_observation k
    else record { kind = k; value = v; provenance = p }
