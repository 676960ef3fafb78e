-- ===== src/Policypack/Matching.antt =====
-- What evaluation finds, and what an extension cannot do.
use codex_prompt_better.Base.{
  ◌≡◌, ◌≢◌, refl, ◌∙◌, String, Bool, true, false, ◌&&◌, str_eq, eq_iff, List, [], ◌∷◌, ◌++◌, Option,
  each_of, ok, arith, All, All-append, All-map, tally, tally-append, Bool-cases, inl, inr,
}
use codex_prompt_better.Base.Text.{str_lt_asym, str_lt_weak, str_lt_total, str_lt_irrefl, str_lt}
use codex_prompt_better.Base.Sorting.{
  sort, All-sort, tally-sort, IsOrdered, IsStrictWeak, sort-IsOrdered,
}
use codex_prompt_better.Policypack.Packs.{
  Rule, Pack, Match, validate_extensions, narrows, matches_all, match_rules, match_packs,
  stands_before, evaluate,
}

pack_order : (x y : Match) → stands_before x y ≡ false → str_lt x.pack_id y.pack_id ≡ false
pack_order x y h = elim (Bool-cases (str_eq x.pack_id y.pack_id)) [
  | inl e ↦ let same = (eq_iff x.pack_id y.pack_id).0 e in rw same (str_lt_irrefl y.pack_id)
  | inr e ↦ ground arith
]

stands_before_trans :
    (x y z : Match)
    → stands_before x y ≡ false
    → stands_before y z ≡ false
    → stands_before x z ≡ false
stands_before_trans x y z h k =
    let packs = str_lt_weak x.pack_id y.pack_id z.pack_id (pack_order x y h) (pack_order y z k) in
    elim (Bool-cases (str_eq x.pack_id z.pack_id)) [
      | inr other ↦ rw other packs
      | inl e ↦
          let ends = (eq_iff x.pack_id z.pack_id).0 e in
          let back : str_lt y.pack_id x.pack_id ≡ false = rw ends (pack_order y z k) in
          let same = str_lt_total x.pack_id y.pack_id (pack_order x y h) back in
          ground (
            arith,
            str_lt_weak x.rule.id y.rule.id z.rule.id,
            eq_iff x.pack_id y.pack_id,
            eq_iff y.pack_id z.pack_id,
          )
    ]

stands_before-weak : IsStrictWeak stands_before
stands_before-weak = record {
  asym = λ x y h. ground (
    arith,
    str_lt_asym x.pack_id y.pack_id,
    str_lt_asym x.rule.id y.rule.id,
    eq_iff x.pack_id y.pack_id,
    eq_iff y.pack_id x.pack_id,
  );
  weak = stands_before_trans;
}

-- The rules of the packs, one after the other.
abbrev pub all_rules : List Pack → List Rule
all_rules [] = []
all_rules (p ∷ packs) = p.rules ++ all_rules packs

module _ (facts : String → Option String) where
  tally-match_rules :
      (q : Rule → Bool) (p : Pack) (rules : List Rule)
      → tally (λ m. q m.rule) (match_rules facts p rules)
        ≡ tally (λ r. q r && matches_all facts r.conditions) rules
  unfolding match_rules
  tally-match_rules q p [] = refl
  tally-match_rules q p (r ∷ rules) = ground (arith, tally-match_rules q p rules)

  tally-match_packs :
      (q : Rule → Bool) (packs : List Pack)
      → tally (λ m. q m.rule) (match_packs facts packs)
        ≡ tally (λ r. q r && matches_all facts r.conditions) (all_rules packs)
  unfolding match_packs
  tally-match_packs q [] = refl
  tally-match_packs q (p ∷ packs) = ground (
    arith,
    tally-append (λ (m : Match). q m.rule) (match_rules facts p p.rules) (match_packs facts packs),
    tally-append (λ (r : Rule). q r && matches_all facts r.conditions) p.rules (all_rules packs),
    tally-match_rules q p p.rules,
    tally-match_packs q packs,
  )

  evaluate-inv :
      (packs : List Pack) (ms : List Match)
      → evaluate packs facts ≡ ok ms
      → ms ≡ sort stands_before (match_packs facts packs)
  unfolding evaluate
  evaluate-inv packs ms h = ground arith

  -- Evaluation finds every rule whose conditions all hold, each as often as the packs have it, and no
  -- other, in the order of the ids of packs and rules.
  pub evaluate-all_rules :
      (packs : List Pack) (ms : List Match)
      → evaluate packs facts ≡ ok ms
      → ((q : Rule → Bool)
          → tally (λ m. q m.rule) ms
            ≡ tally (λ r. q r && matches_all facts r.conditions) (all_rules packs))
        × IsOrdered stands_before ms
  evaluate-all_rules packs ms h = rw (evaluate-inv packs ms h) (
    λ q.
        tally-sort stands_before (λ (m : Match). q m.rule) (match_packs facts packs)
        ∙ tally-match_packs q packs,
    sort-IsOrdered stands_before-weak (match_packs facts packs),
  )

  match_rules-All :
      (p : Pack) (rules : List Rule)
      → each_of narrows rules ≡ true
      → All (λ m. narrows m.rule ≡ true) (match_rules facts p rules)
  unfolding match_rules
  match_rules-All p [] h = tt
  match_rules-All p (r ∷ rules) h = elim (Bool-cases (matches_all facts r.conditions)) [
    | inl e ↦ rw e (ground arith, match_rules-All p rules (ground arith))
    | inr e ↦ rw e (match_rules-All p rules (ground arith))
  ]

  match_packs-All :
      (packs : List Pack)
      → each_of (λ p. each_of narrows p.rules) packs ≡ true
      → All (λ m. narrows m.rule ≡ true) (match_packs facts packs)
  unfolding match_packs
  match_packs-All [] h = tt
  match_packs-All (p ∷ packs) h =
      All-append (λ (m : Match). narrows m.rule ≡ true) (match_rules facts p p.rules)
        (match_packs facts packs) (match_rules-All p p.rules (ground arith))
        (match_packs-All packs (ground arith))

validate_extensions-inv :
    (packs : List Pack)
    → validate_extensions packs ≡ ok tt
    → each_of (λ p. each_of narrows p.rules) packs ≡ true
unfolding validate_extensions
validate_extensions-inv packs h = ground arith

-- Whatever the facts, no rule that packs accepted as extensions contribute to an evaluation lets the
-- action continue: extensions can only narrow what is allowed.
pub evaluate-narrows :
    (packs : List Pack) (facts : String → Option String) (ms : List Match)
    → validate_extensions packs ≡ ok tt
    → evaluate packs facts ≡ ok ms
    → All (λ m. m.rule.outcome ≢ "continue") ms
evaluate-narrows packs facts ms v h = rw (evaluate-inv facts packs ms h) (
    All-map (λ m e. ground (arith, eq_iff m.rule.outcome "continue"))
      (sort stands_before (match_packs facts packs))
      (All-sort stands_before (λ m. narrows m.rule ≡ true) (match_packs facts packs)
        (match_packs-All facts packs (validate_extensions-inv packs v))))
