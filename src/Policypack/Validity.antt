-- ===== src/Policypack/Validity.antt =====
-- Validation against a plain description of a valid pack.
use Prim.Native.String.{len}
use codex_prompt_better.Base.{
  ℕ, ◌+◌, ◌≡◌, refl, ◌∙◌, String, Bool, true, false, not, ◌&&◌, str_eq, List, [], ◌∷◌, each_of,
  length, is_ok, Result, ok, err, ◌>>◌, require, arith,
}
use codex_prompt_better.Base.Integers.{within}
use codex_prompt_better.Policypack.Identifier.{valid_identifier}
use codex_prompt_better.Policypack.Tables.{contains, categories, outcomes}
use codex_prompt_better.Policypack.Packs.{
  Rule, Pack, current_version, valid_condition, in_range, validate_rule, validate_rules, validate,
  duplicate_rule,
}

abbrev pub is_valid_rule : Rule → Bool
is_valid_rule r =
    valid_identifier r.id 80
    && contains categories r.category
    && contains outcomes r.outcome
    && within r.risk_score 100
    && in_range (len r.explanation) 300
    && in_range (length r.conditions) 16
    && each_of valid_condition r.conditions

-- No rule has the id of a later one.
abbrev pub has_distinct_ids : List Rule → Bool
has_distinct_ids [] = true
has_distinct_ids (r ∷ rules) = each_of (λ s. not (str_eq r.id s.id)) rules && has_distinct_ids rules

abbrev pub is_valid_pack : Pack → Bool
is_valid_pack p =
    str_eq p.schema_version current_version
    && str_eq p.version current_version
    && valid_identifier p.id 80
    && in_range (length p.rules) 256
    && each_of is_valid_rule p.rules
    && has_distinct_ids p.rules

is_ok->> : {E : Type 0} (m n : Result E (Unit {0})) → is_ok (m >> n) ≡ (is_ok m && is_ok n)
is_ok->> (ok a) n = refl
is_ok->> (err e) n = refl

is_ok-require : {E : Type 0} (b : Bool) (e : E) → is_ok (require b e) ≡ b
is_ok-require true e = refl
is_ok-require false e = refl

and_assoc : (a b c : Bool) → ((a && b) && c) ≡ (a && (b && c))
and_assoc true b c = refl
and_assoc false b c = refl

-- The tests of the head and of the tail, sorted by what they test.
and_shuffle :
    (v n x d u e : Bool) → (v && (n && (x && d && (u && e)))) ≡ ((v && x) && (u && d) && (n && e))
and_shuffle true n x d u e = ground arith
and_shuffle false n x d u e = refl

is_ok-chain :
    {E : Type 0} (m n : Result E (Unit {0})) (b : Bool) (e : E)
    → is_ok (m >> (require b e >> n)) ≡ (is_ok m && (b && is_ok n))
is_ok-chain m n b e = simp (is_ok->>, is_ok-require)

each_of-true : (rules : List Rule) → each_of (λ s. not (contains [] s.id)) rules ≡ true
each_of-true [] = refl
each_of-true (r ∷ rules) = each_of-true rules

and_true : (b : Bool) → (b && true) ≡ b
and_true true = refl
and_true false = refl

each_of-unseen :
    (x : String) (seen : List String) (rules : List Rule)
    → each_of (λ s. not (contains (x ∷ seen) s.id)) rules
      ≡ (each_of (λ s. not (str_eq x s.id)) rules && each_of (λ s. not (contains seen s.id)) rules)
each_of-unseen x seen [] = refl
each_of-unseen x seen (r ∷ rules) = ground (arith, each_of-unseen x seen rules)

validate_rule-is_valid_rule :
    (r : Rule) (index : ℕ) → is_ok (validate_rule r index) ≡ is_valid_rule r
unfolding validate_rule
validate_rule-is_valid_rule r index = simp (is_ok->>, is_ok-require, and_assoc)

validate_rules_iff :
    (index : ℕ) (seen : List String) (rules : List Rule)
    → is_ok (validate_rules index seen rules) ≡ (
        each_of is_valid_rule rules
        && has_distinct_ids rules
        && each_of (λ s. not (contains seen s.id)) rules)
unfolding validate_rules
validate_rules_iff index seen [] = refl
validate_rules_iff index seen (r ∷ rules) =
    is_ok-chain (validate_rule r index) (validate_rules (index + 1) (r.id ∷ seen) rules)
      (not (contains seen r.id)) (duplicate_rule index)
    ∙ rw
        (
          validate_rule-is_valid_rule r index,
          validate_rules_iff (index + 1) (r.id ∷ seen) rules,
          each_of-unseen r.id seen rules,
        )
        (and_shuffle (is_valid_rule r) (not (contains seen r.id)) (each_of is_valid_rule rules)
          (has_distinct_ids rules) (each_of (λ s. not (str_eq r.id s.id)) rules)
          (each_of (λ s. not (contains seen s.id)) rules))

-- A pack passes exactly if its versions are the current one, its id is an identifier, it has 1 to 256
-- rules, each of them valid, and no two of them have one id.
pub validate_iff : (p : Pack) → is_ok (validate p) ≡ is_valid_pack p
unfolding validate
validate_iff p =
    simp (is_ok->>, is_ok-require, validate_rules_iff, and_assoc, each_of-true, and_true)
