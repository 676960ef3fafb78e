-- ===== src/Normalize/Laws.antt =====
-- What wins, whatever order the assertions come in.
use codex_prompt_better.Base.{
  ◌+◌, ◌≤◌, ◌<◌, ◌≡◌, ◌≢◌, refl, ◌∙◌, sym, ap, String, Bool, true, false, not, ◌&&◌, ltb, ◌==◌,
  List, [], ◌∷◌, keep, some_of-tally, tally, arith, if◌then◌else◌, str_eq, eq_iff, All, Bool-cases,
  inl, inr, ◌⊎◌,
}
use mathlib.Core.Path.{subst}
use codex_prompt_better.Base.Sorting.{IsOrdered, sort, tally-sort, sort-IsOrdered}
use codex_prompt_better.Normalize.{
  Assertion, ranks_before, same_rank, differs, conclude, resolve_ordered, resolve,
}
use codex_prompt_better.Normalize.Order.{ranks_before-weak, same_rank-ranks_before}

-- No assertion ranks before this one.
abbrev pub is_best : List Assertion → Assertion → Bool
is_best all a = tally (λ b. ranks_before b a) all == 0

tally-ext :
    (p q : Assertion → Bool) (all : List Assertion)
    → ((a : Assertion) → p a ≡ q a)
    → tally p all ≡ tally q all
tally-ext p q [] h = refl
tally-ext p q (a ∷ all) h = rw (h a, tally-ext p q all h)

tally_mono :
    (p q : Assertion → Bool) (all : List Assertion)
    → ((a : Assertion) → p a ≡ true → q a ≡ true)
    → tally p all ≤ tally q all
tally_mono p q [] h = omega arith
tally_mono p q (a ∷ rest) h = ground (arith, tally_mono p q rest h, h a)

tally-keep :
    (p q : Assertion → Bool) (all : List Assertion)
    → tally p (keep q all) ≡ tally (λ a. p a && q a) all
tally-keep p q [] = refl
tally-keep p q (a ∷ all) = ground (arith, tally-keep p q all)

module _ (w : Assertion) where
  -- What does not rank before the winner ranks before nothing that the winner does not rank before.
  none_before :
      (a : Assertion) (rest : List Assertion)
      → All (λ b. ranks_before b w ≡ false) rest
      → ranks_before w a ≡ false
      → tally (λ b. ranks_before b a) rest ≡ 0
  none_before a [] h e = refl
  none_before a (b ∷ bs) h e =
      ground (arith, ranks_before-weak.weak b w a h.0 e, none_before a bs h.1 e)

  same_rank-tally :
      (q : Assertion → Bool) (rest : List Assertion)
      → All (λ b. ranks_before b w ≡ false) rest
      → tally (λ a. not (ranks_before w a) && q a) rest ≡ tally (λ a. same_rank a w && q a) rest
  same_rank-tally q [] h = refl
  same_rank-tally q (b ∷ bs) h =
      ground (arith, same_rank-tally q bs h.1, same_rank-ranks_before b w)

module _ (all : List Assertion) (w : Assertion) (rest : List Assertion)
    (sorted : sort ranks_before all ≡ w ∷ rest) where
  winner_first : All (λ b. ranks_before b w ≡ false) rest
  winner_first = (subst (IsOrdered ranks_before) sorted (sort-IsOrdered ranks_before-weak all)).0

  tally_sorted : (p : Assertion → Bool) → tally p all ≡ tally p (w ∷ rest)
  tally_sorted p = sym (tally-sort ranks_before p all) ∙ ap (tally p) sorted

  is_best_iff : (a : Assertion) → is_best all a ≡ not (ranks_before w a)
  is_best_iff a = elim (Bool-cases (ranks_before w a)) [
    | inl e ↦ ground (arith, tally_sorted (λ b. ranks_before b a))
    | inr e ↦
        ground (arith, tally_sorted (λ b. ranks_before b a), none_before w a rest winner_first e)
  ]

  -- The best assertions are the winner and those behind it of its rank.
  best_tally :
      (q : Assertion → Bool)
      → tally (λ a. is_best all a && q a) all
        ≡ (if q w then 1 else 0) + tally (λ a. same_rank a w && q a) rest
  best_tally q =
      tally-ext (λ a. is_best all a && q a) (λ a. not (ranks_before w a) && q a) all
        (λ a. ap (λ (b : Bool). b && q a) (is_best_iff a))
      ∙ tally_sorted (λ a. not (ranks_before w a) && q a)
      ∙ ground (arith, same_rank-tally w q rest winner_first, ranks_before-weak.asym w w)

  best_count : tally (is_best all) all ≡ 1 + tally (λ a. same_rank a w) rest
  best_count =
      tally-ext (is_best all) (λ a. is_best all a && true) all (λ a. ground arith)
      ∙ best_tally (λ a. true)
      ∙ ap (◌+◌ 1)
          (tally-ext (λ a. same_rank a w && true) (λ a. same_rank a w) rest (λ a. ground arith))

-- There is a winner, unless there is no assertion.
resolve-conclude :
    (all : List Assertion)
    → (all ≡ [])
      ⊎ ((w : Assertion) × (rest : List Assertion) × (sort ranks_before all ≡ w ∷ rest)
          × (resolve all ≡ conclude w rest))
unfolding resolve resolve_ordered
resolve-conclude [] = inl refl
resolve-conclude (a ∷ rest') = go (sort ranks_before (a ∷ rest')) refl
  where
    go :
        (s : List Assertion)
        → sort ranks_before (a ∷ rest') ≡ s
        → (a ∷ rest' ≡ [])
          ⊎ ((w : Assertion) × (rest : List Assertion) × (sort ranks_before (a ∷ rest') ≡ w ∷ rest)
              × (resolve_ordered (sort ranks_before (a ∷ rest')) ≡ conclude w rest))
    go [] e =
        let counted = tally-sort ranks_before (λ b. true) (a ∷ rest') in
        let empty = ap (tally (λ b. true)) e in ground arith
    go (w ∷ rest) e = inr (w, rest, e, ap resolve_ordered e)

module _ (all : List Assertion) (w : Assertion) (rest : List Assertion)
    (sorted : sort ranks_before all ≡ w ∷ rest) where
  conclude_agreed :
      tally (λ a. is_best all a && not (str_eq a.value w.value)) all ≡ 0
      → ((conclude w rest).value ≡ w.value)
        × ((conclude w rest).ordering_uncertain ≡ ltb 1 (tally (is_best all) all))
        × ((p : Assertion → Bool)
            → tally p (conclude w rest).conflicts
              ≡ tally (λ a. p a && not (str_eq a.value w.value)) all)
  unfolding conclude
  conclude_agreed h =
      let other = best_tally all w rest sorted (λ a. not (str_eq a.value w.value)) in
      let itself = eq_iff w.value w.value in
      (
        ground (arith, some_of-tally (λ a. same_rank a w && differs w a) rest),
        ground (arith, some_of-tally (λ a. same_rank a w) rest, best_count all w rest sorted),
        λ p.
            tally-keep p (differs w) rest
            ∙ ground
                (arith, tally_sorted all w rest sorted (λ a. p a && not (str_eq a.value w.value))),
      )

  conclude_tied :
      (v : String)
      → w.value ≢ v
      → 0 < tally (λ a. is_best all a && str_eq a.value v) all
      → ((conclude w rest).value ≡ "")
        × ((conclude w rest).winning_source ≡ "")
        × ((conclude w rest).ordering_uncertain ≡ true)
  unfolding conclude
  conclude_tied v d h =
      let same = best_tally all w rest sorted (λ a. str_eq a.value v) in
      let not_it = eq_iff w.value v in
      let tie = some_of-tally (λ a. same_rank a w && differs w a) rest in
      let tied = some_of-tally (λ a. same_rank a w) rest in
      let m =
        tally_mono (λ a. same_rank a w && str_eq a.value v) (λ a. same_rank a w && differs w a) rest
          (λ a e. ground (arith, eq_iff a.value v, eq_iff a.value w.value)) in
      let n =
        tally_mono (λ a. same_rank a w && str_eq a.value v) (λ a. same_rank a w) rest
          (λ a e. ground arith) in
      (ground arith, ground arith, ground arith)

-- Of assertions of which those that no other ranks before agree on a value, that value is resolved,
-- whatever order they come in; the ordering is called uncertain exactly when there are several of
-- those; and the conflicts are, each as often as it comes, the assertions of another value.
pub resolve_agreed :
    (all : List Assertion) (v : String)
    → all ≢ []
    → tally (λ a. is_best all a && not (str_eq a.value v)) all ≡ 0
    → ((resolve all).value ≡ v)
      × ((resolve all).ordering_uncertain ≡ ltb 1 (tally (is_best all) all))
      × ((p : Assertion → Bool)
          → tally p (resolve all).conflicts ≡ tally (λ a. p a && not (str_eq a.value v)) all)
unfolding resolve resolve_ordered conclude
resolve_agreed all v h same = elim (resolve-conclude all) [
  | inl empty ↦ absurd (h empty)
  | inr (w, rest, sorted, e) ↦
      let same_value : w.value ≡ v =
        ground
          (arith, best_tally all w rest sorted (λ a. not (str_eq a.value v)), eq_iff w.value v) in
      rw e (
        subst
          (λ (u : String).
            ((conclude w rest).value ≡ u)
            × ((conclude w rest).ordering_uncertain ≡ ltb 1 (tally (is_best all) all))
            × ((p : Assertion → Bool)
                → tally p (conclude w rest).conflicts
                  ≡ tally (λ a. p a && not (str_eq a.value u)) all))
          same_value
          (conclude_agreed all w rest sorted (
            subst (λ (u : String). tally (λ a. is_best all a && not (str_eq a.value u)) all ≡ 0)
              (sym same_value) same)))
]

-- If two assertions that no other ranks before have different values, neither value is resolved, and
-- no source wins.
pub resolve_tied :
    (all : List Assertion) (v v' : String)
    → v ≢ v'
    → 0 < tally (λ a. is_best all a && str_eq a.value v) all
    → 0 < tally (λ a. is_best all a && str_eq a.value v') all
    → ((resolve all).value ≡ "")
      × ((resolve all).winning_source ≡ "")
      × ((resolve all).ordering_uncertain ≡ true)
unfolding resolve resolve_ordered conclude
resolve_tied all v v' d h h' = elim (resolve-conclude all) [
  | inl empty ↦ absurd (none empty)
  | inr (w, rest, sorted, e) ↦ elim (Bool-cases (str_eq w.value v)) [
    | inl same ↦
        rw e (conclude_tied all w rest sorted v' (λ x. d (sym ((eq_iff w.value v).0 same) ∙ x)) h')
    | inr other ↦ rw e (conclude_tied all w rest sorted v (λ x. ground (arith, eq_iff w.value v)) h)
  ]
]
  where
    none : all ≢ []
    none empty =
        let nothing =
          ap (λ (l : List Assertion). tally (λ a. is_best all a && str_eq a.value v) l) empty in
        omega arith
