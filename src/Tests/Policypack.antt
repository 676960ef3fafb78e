-- ===== src/Tests/Policypack.antt =====
-- A pack with two rules, one of which matches.
use codex_prompt_better.Base.{
  ◌≡◌, ◌≢◌, refl, String, if◌then◌else◌, str_eq, [], ◌∷◌, Option, none, some, ok, is_ok, All,
}
use codex_prompt_better.Base.Integers.{pos}
use codex_prompt_better.Base.Sorting.{sort}
use codex_prompt_better.Policypack.Identifier.{valid_identifier}
use codex_prompt_better.Policypack.Packs.{
  Rule, Pack, Match, validate, validate_extensions, holds, evaluate,
}
use codex_prompt_better.Policypack.Validity.{is_valid_pack, validate_iff}
use codex_prompt_better.Policypack.Matching.{evaluate-narrows}

abbrev pub a_rule : String → String → String → Rule
a_rule id outcome phase = record {
  id = id;
  category = "privacy";
  outcome = outcome;
  risk_score = pos 60;
  explanation = "asks first";
  conditions = record { field = "phase"; operator = "equals"; value = phase } ∷ [];
}

abbrev pub a_pack : Pack
a_pack = record {
  schema_version = "1.0.0";
  id = "team";
  version = "1.0.0";
  rules = a_rule "b" "block" "review" ∷ a_rule "a" "clarify" "design" ∷ [];
}

abbrev pub review_facts : String → Option String
review_facts field = if str_eq field "phase" then some "review" else none

abbrev pub a_match : Match
a_match = record { pack_id = "team"; pack_version = "1.0.0"; rule = a_rule "b" "block" "review" }

a_pack_evaluated : evaluate (a_pack ∷ []) review_facts ≡ ok (a_match ∷ [])
unfolding evaluate valid_identifier sort holds
a_pack_evaluated = refl

a_pack_accepted : validate_extensions (a_pack ∷ []) ≡ ok tt
unfolding validate_extensions valid_identifier
a_pack_accepted = refl

validate_iff_example : is_ok (validate a_pack) ≡ is_valid_pack a_pack
validate_iff_example = validate_iff a_pack

evaluate-narrows_example : All (λ m. m.rule.outcome ≢ "continue") (a_match ∷ [])
evaluate-narrows_example =
    evaluate-narrows (a_pack ∷ []) review_facts (a_match ∷ []) a_pack_accepted a_pack_evaluated
