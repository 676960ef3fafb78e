-- ===== src/Policypack/Packs.antt =====
-- Packs, their validation, and evaluation.
use Prim.Native.String.{◌++◌ as append, len}
use text.Mathlib.Text.{starts_with}
use codex_prompt_better.Base.{
  ℕ, ◌+◌, String, Bool, true, not, ◌&&◌, ◌||◌, if◌then◌else◌, str_eq, ltb, leb, ◌==◌, List, [], ◌∷◌,
  ◌++◌, Option, none, some, each_of, length, Result, ok, ◌>>◌, require,
}
use codex_prompt_better.Base.Integers.{ℤ, within}
use codex_prompt_better.Base.Text.{str_lt}
use codex_prompt_better.Base.Sorting.{sort}
use codex_prompt_better.Policypack.Identifier.{valid_identifier}
use codex_prompt_better.Policypack.Tables.{
  contains, categories, outcomes, fields, operators, condition_values,
}

pub record Condition : Type 0 where
  pub field : String
  pub operator : String
  pub value : String

pub record Rule : Type 0 where
  pub id : String
  pub category : String
  pub outcome : String
  pub risk_score : ℤ
  pub explanation : String
  pub conditions : List Condition

pub record Pack : Type 0 where
  pub schema_version : String
  pub id : String
  pub version : String
  pub rules : List Rule

pub record Match : Type 0 where
  pub pack_id : String
  pub pack_version : String
  pub rule : Rule

-- One constructor for each message; the index of a rule goes into the error's field.
pub data Failure : Type 0 where
  unsupported_version invalid_pack_id bad_rule_count too_many_packs duplicate_pack : Failure
  broadens : Failure
  bad_identity bad_risk bad_condition_count bad_condition duplicate_rule : ℕ → Failure

-- `contracts.SchemaVersion`.
abbrev pub current_version : String
current_version = "1.0.0"

-- `validConditionValue`; its two last cases are the same.
unfoldable pub valid_condition_value : Condition → Bool
unfolding condition_values
valid_condition_value c =
    if str_eq c.operator "present"
    then str_eq c.value ""
    else contains (condition_values c.field) c.value

unfoldable pub valid_condition : Condition → Bool
unfolding valid_condition_value
valid_condition c =
    contains fields c.field
    && contains operators c.operator
    && leb (len c.value) 128
    && valid_condition_value c

abbrev pub in_range : ℕ → ℕ → Bool
in_range n limit = not (n == 0 || ltb limit n)

unfoldable pub validate_rule : Rule → ℕ → Result Failure (Unit {0})
unfolding valid_condition
validate_rule r index = do
  require
      (valid_identifier r.id 80 && contains categories r.category && contains outcomes r.outcome)
      (bad_identity index)
  require (within r.risk_score 100 && in_range (len r.explanation) 300) (bad_risk index)
  require (in_range (length r.conditions) 16) (bad_condition_count index)
  require (each_of valid_condition r.conditions) (bad_condition index)

-- The loop of `Validate` from an index on, with the ids that were seen.
unfoldable pub validate_rules : ℕ → List String → List Rule → Result Failure (Unit {0})
unfolding validate_rule
validate_rules index seen [] = ok tt
validate_rules index seen (r ∷ rules) =
    validate_rule r index
    >> (require (not (contains seen r.id)) (duplicate_rule index)
        >> validate_rules (index + 1) (r.id ∷ seen) rules)

unfoldable pub validate : Pack → Result Failure (Unit {0})
unfolding validate_rules
validate p = do
  require (str_eq p.schema_version current_version && str_eq p.version current_version)
      unsupported_version
  require (valid_identifier p.id 80) invalid_pack_id
  require (in_range (length p.rules) 256) bad_rule_count
  validate_rules 0 [] p.rules

abbrev pub key_of : Pack → String
key_of p = append p.id (append "@" p.version)

unfoldable pub validate_packs : List String → List Pack → Result Failure (Unit {0})
unfolding validate
validate_packs seen [] = ok tt
validate_packs seen (p ∷ packs) =
    validate p
    >> (require (not (contains seen (key_of p))) duplicate_pack
        >> validate_packs (key_of p ∷ seen) packs)

unfoldable pub validate_set : List Pack → Result Failure (Unit {0})
unfolding validate_packs
validate_set packs = require (not (ltb 16 (length packs))) too_many_packs >> validate_packs [] packs

abbrev pub narrows : Rule → Bool
narrows r = not (str_eq r.outcome "continue")

unfoldable pub validate_extensions : List Pack → Result Failure (Unit {0})
unfolding validate_set
validate_extensions packs =
    validate_set packs >> require (each_of (λ p. each_of narrows p.rules) packs) broadens

-- The body of the loop of `matchesAll`; the facts are a function, `none` for an absent key.
unfoldable pub holds : (String → Option String) → Condition → Bool
holds facts c = elim (facts c.field) [
  | none ↦ not (
      str_eq c.operator "equals"
      || str_eq c.operator "not_equals"
      || str_eq c.operator "prefix"
      || str_eq c.operator "present")
  | some value ↦
      if str_eq c.operator "equals"
      then str_eq value c.value
      else if str_eq c.operator "not_equals"
      then not (str_eq value c.value)
      else if str_eq c.operator "prefix"
      then starts_with value c.value
      else true
]

abbrev pub matches_all : (String → Option String) → List Condition → Bool
matches_all facts = each_of (holds facts)

-- The two loops of `Evaluate`, the inner one first.
unfoldable pub match_rules : (String → Option String) → Pack → List Rule → List Match
match_rules facts p [] = []
match_rules facts p (r ∷ rules) =
    let rest = match_rules facts p rules in
    if matches_all facts r.conditions
    then record { pack_id = p.id; pack_version = p.version; rule = r } ∷ rest
    else rest

unfoldable pub match_packs : (String → Option String) → List Pack → List Match
unfolding match_rules
match_packs facts [] = []
match_packs facts (p ∷ packs) = match_rules facts p p.rules ++ match_packs facts packs

-- The comparison of the sort.
abbrev pub stands_before : Match → Match → Bool
stands_before a b =
    if not (str_eq a.pack_id b.pack_id)
    then str_lt a.pack_id b.pack_id
    else str_lt a.rule.id b.rule.id

unfoldable pub evaluate : List Pack → (String → Option String) → Result Failure (List Match)
unfolding validate_set match_packs
evaluate packs facts = validate_set packs >> ok (sort stands_before (match_packs facts packs))
