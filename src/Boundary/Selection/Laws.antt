-- ===== src/Boundary/Selection/Laws.antt =====
-- The bounded selection against a sort of all entries.
use mathlib.Core.Path.{subst}
use codex_prompt_better.Base.{
  All-take, ℕ, zero, suc, ◌+◌, ◌≤◌, ◌≡◌, refl, sym, ◌∙◌, ap, Bool, true, false, ltb, List, [], ◌∷◌,
  some, length, length-take, take, arith, All, tally, Bool-cases, inl, inr,
}
use codex_prompt_better.Base.Sorting.{IsOrdered, IsStrictWeak}
use codex_prompt_better.Base.Text.{str_lt_asym, str_lt_weak}
use codex_prompt_better.Base.Lexicographic.{by_largest-weak, by_least-weak, by_text-weak}
use codex_prompt_better.Boundary.Selection.{
  outcome_priority, RankedDecision, better_decision, push, last_of, without_last, select,
  select_all, select_decisions, max_decisions,
}

module _ {ℓ} {A : Type ℓ} (better : A → A → Bool) where
  -- All entries, best first.
  pub push_all : List A → List A → List A
  push_all selected [] = selected
  push_all selected (entry ∷ entries) = push_all (push better entry selected) entries

  pub All-push {κ} :
      (P : A → Type κ) (x : A) (xs : List A) → P x → All P xs → All P (push better x xs)
  unfolding push
  All-push P x [] p h = (p, h)
  All-push P x (y ∷ ys) p h = elim (Bool-cases (better x y)) [
    | inl e ↦ rw e (p, h)
    | inr e ↦ rw e (h.0, All-push P x ys p h.1)
  ]

  take_all : (n : ℕ) (xs : List A) → length xs ≤ n → take n xs ≡ xs
  take_all zero [] h = refl
  take_all zero (x ∷ xs) h = absurd (omega arith)
  take_all (suc n) [] h = refl
  take_all (suc n) (x ∷ xs) h = ap (◌∷◌ x) (take_all n xs (omega arith))

  take_twice : (n : ℕ) (x : A) (xs : List A) → take n (x ∷ take n xs) ≡ take n (x ∷ xs)
  take_twice zero x xs = refl
  take_twice (suc n) x [] = refl
  take_twice (suc n) x (y ∷ ys) = ap (◌∷◌ x) (take_twice n y ys)

  pub length-push : (x : A) (xs : List A) → length (push better x xs) ≡ length xs + 1
  unfolding push
  length-push x [] = refl
  length-push x (y ∷ ys) = ground (arith, length-push x ys)

  without_last-take :
      (x : A) (xs : List A) → without_last better (x ∷ xs) ≡ take (length xs) (x ∷ xs)
  unfolding without_last
  without_last-take x [] = refl
  without_last-take x (y ∷ ys) = ap (◌∷◌ x) (without_last-take y ys)

  tally-push : (p : A → Bool) (x : A) (xs : List A) → tally p (push better x xs) ≡ tally p (x ∷ xs)
  unfolding push
  tally-push p x [] = refl
  tally-push p x (y ∷ ys) = ground (arith, tally-push p x ys)

  tally-push_all :
      (p : A → Bool) (xs entries : List A)
      → tally p (push_all xs entries) ≡ tally p xs + tally p entries
  unfolding push_all
  tally-push_all p xs [] = omega arith
  tally-push_all p xs (e ∷ entries) =
      omega (arith, tally-push_all p (push better e xs) entries, tally-push p e xs)

  take-push :
      (n : ℕ) (x : A) (xs : List A) → take n (push better x (take n xs)) ≡ take n (push better x xs)
  unfolding push
  take-push zero x xs = refl
  take-push (suc n) x [] = refl
  take-push (suc n) x (y ∷ ys) = elim (Bool-cases (better x y)) [
    | inl e ↦ rw e (ap (◌∷◌ x) (take_twice n y ys))
    | inr e ↦ rw e (ap (◌∷◌ y) (take-push n x ys))
  ]

  -- A better entry takes the place of the last.
  replaced_lem :
      (x w : A) (y : A) (ys : List A)
      → last_of better (y ∷ ys) ≡ some w
      → better x w ≡ true
      → push better x (without_last better (y ∷ ys))
        ≡ take (suc (length ys)) (push better x (y ∷ ys))
  unfolding push last_of without_last
  replaced_lem x w y [] h e = let same : better x y ≡ true = cc in rw same refl
  replaced_lem x w y (z ∷ zs) h e = elim (Bool-cases (better x y)) [
    | inl b ↦ rw b (ap (λ l. x ∷ y ∷ l) (without_last-take z zs))
    | inr b ↦ rw b (ap (◌∷◌ y) (replaced_lem x w z zs h e))
  ]

module _ {ℓ} {A : Type ℓ} {better : A → A → Bool} (w : IsStrictWeak better) where
  behind-All :
      (x y : A) (ys : List A)
      → better y x ≡ false
      → All (λ z. better z y ≡ false) ys
      → All (λ z. better z x ≡ false) ys
  behind-All x y [] e h = h
  behind-All x y (z ∷ zs) e h = (w.weak z y x h.0 e, behind-All x y zs e h.1)

  push-IsOrdered : (x : A) (xs : List A) → IsOrdered better xs → IsOrdered better (push better x xs)
  unfolding push
  push-IsOrdered x [] h = (tt, tt)
  push-IsOrdered x (y ∷ ys) h = elim (Bool-cases (better x y)) [
    | inl e ↦ let after = w.asym x y e in rw e ((after, behind-All x y ys after h.0), h)
    | inr e ↦ rw e (All-push better (λ z. better z y ≡ false) x ys e h.0, push-IsOrdered x ys h.1)
  ]

  -- No member is worse than the last.
  last_of-worst :
      (y : A) (ys : List A) (l : A)
      → IsOrdered better (y ∷ ys)
      → last_of better (y ∷ ys) ≡ some l
      → better l y ≡ false
  unfolding last_of
  last_of-worst y [] l h e =
      let same : y ≡ l = cc in
      elim (Bool-cases (better l y)) [ inl b ↦ absurd (cc (w.asym l y b)) | inr b ↦ b ]
  last_of-worst y (z ∷ zs) l h e = w.weak l z y (last_of-worst z zs l h.1 e) h.0.0

  -- An entry that is not better than the last falls out.
  dropped_lem :
      (x l : A) (y : A) (ys : List A)
      → IsOrdered better (y ∷ ys)
      → last_of better (y ∷ ys) ≡ some l
      → better x l ≡ false
      → take (suc (length ys)) (push better x (y ∷ ys)) ≡ y ∷ ys
  unfolding push last_of
  dropped_lem x l y [] h e b = rw (push, w.weak x l y b (last_of-worst y [] l h e)) refl
  dropped_lem x l y (z ∷ zs) h e b =
      rw (push, w.weak x l y b (last_of-worst y (z ∷ zs) l h e))
        (ap (◌∷◌ y) (dropped_lem x l z zs h.1 e b))

  has_last : (y : A) (ys : List A) → (l : A) × (last_of better (y ∷ ys) ≡ some l)
  unfolding last_of
  has_last y [] = (y, refl)
  has_last y (z ∷ zs) = has_last z zs

  -- The full selection, after one more entry.
  select_full :
      (x y : A) (ys : List A)
      → IsOrdered better (y ∷ ys)
      → select better (suc (length ys)) (y ∷ ys) x ≡ take (suc (length ys)) (push better x (y ∷ ys))
  unfolding select
  select_full x y ys h =
      let (l, last) = has_last y ys in
      let full : ltb (suc (length ys)) (suc (length ys)) ≡ false = ground arith in
      elim (Bool-cases (better x l)) [
        | inl b ↦ rw (select, full, last, b) (replaced_lem better x l y ys last b)
        | inr b ↦ rw (select, full, last, b) (sym (dropped_lem x l y ys h last b))
      ]

  select_at_limit :
      (x : A) (xs : List A)
      → IsOrdered better xs
      → select better (length xs) xs x ≡ take (length xs) (push better x xs)
  unfolding select last_of
  select_at_limit x [] h = refl
  select_at_limit x (y ∷ ys) h = select_full x y ys h

  select-push :
      (n : ℕ) (x : A) (xs : List A)
      → IsOrdered better xs
      → length xs ≤ n
      → select better n xs x ≡ take n (push better x xs)
  unfolding select
  select-push n x xs h fits = elim (Bool-cases (ltb (length xs) n)) [
    | inl room ↦
        rw (select, room)
          (sym (take_all better n (push better x xs) (ground (arith, length-push better x xs))))
    | inr full ↦
        let at_limit : length xs ≡ n = ground arith in
        subst (λ (k : ℕ). select better k xs x ≡ take k (push better x xs)) at_limit
          (select_at_limit x xs h)
  ]

  take-IsOrdered : (n : ℕ) (xs : List A) → IsOrdered better xs → IsOrdered better (take n xs)
  take-IsOrdered zero xs h = tt
  take-IsOrdered (suc n) [] h = h
  take-IsOrdered (suc n) (x ∷ xs) h =
      (All-take (λ z. better z x ≡ false) n xs h.0, take-IsOrdered n xs h.1)

  select_all-push_all :
      (n : ℕ) (xs entries : List A)
      → IsOrdered better xs
      → (select_all better n (take n xs) entries ≡ take n (push_all better xs entries))
        × IsOrdered better (push_all better xs entries)
  unfolding select_all push_all
  select_all-push_all n xs [] h = (refl, h)
  select_all-push_all n xs (e ∷ entries) h =
      let (same, ordered) =
        select_all-push_all n (push better e xs) entries (push-IsOrdered e xs h) in
      let step =
        select-push n e (take n xs) (take-IsOrdered n xs h) (omega (arith, length-take n xs))
        ∙ take-push better n e xs in
      (ap (λ (l : List A). select_all better n l entries) step ∙ same, ordered)

better_decision-weak : IsStrictWeak better_decision
unfolding better_decision
better_decision-weak =
    by_largest-weak _
      (by_largest-weak _
        (by_largest-weak _
          (by_least-weak _
            (by_text-weak _
              (by_text-weak _
                (record {
                  asym = λ x y h. str_lt_asym x.decision.source_ref y.decision.source_ref h;
                  weak = λ x y z h k.
                      str_lt_weak x.decision.source_ref y.decision.source_ref z.decision.source_ref
                        h k;
                })
                (λ d. d.decision.rule_id))
              (λ d. d.decision.pack_id))
            (λ d. d.candidate_order))
          (λ d. d.decision.risk))
        (λ d. outcome_priority d.decision.outcome))
      (λ d. d.authority)

-- The bounded selection keeps exactly the best decisions: it ends with the first 256 of all entries
-- in order, best first, each entry counted as often as it comes, whatever order they come in.
pub select_decisions-push_all :
    (entries : List RankedDecision)
    → let all = push_all better_decision [] entries in
      (select_decisions entries ≡ take max_decisions all)
      × IsOrdered better_decision all
      × ((p : RankedDecision → Bool) → tally p all ≡ tally p entries)
unfolding select_decisions
select_decisions-push_all entries =
    let (kept, ordered) = select_all-push_all better_decision-weak max_decisions [] entries tt in
    (kept, ordered, λ p. tally-push_all better_decision p [] entries ∙ omega arith)
