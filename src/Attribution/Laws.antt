-- ===== src/Attribution/Laws.antt =====
-- Which projects `Resolve` names, against a plain sum of each candidate's points.
use codex_prompt_better.Base.{
  ℕ, ◌+◌, ◌≤◌, ◌<◌, ◌≡◌, refl, sym, ap, ◌∙◌, ◌⊎◌, inl, inr, String, true, false, not, ◌&&◌, ◌==◌,
  if◌then◌else◌, str_eq, eq_iff, ltb, List, [], ◌∷◌, length, max, tally, arith, Bool-cases,
}
use codex_prompt_better.Base.Text.{str_lt}
use codex_prompt_better.Base.Sorting.{sort, tally-sort}
use codex_prompt_better.Base.Patterns.{Unicode}
use codex_prompt_better.Attribution.{
  Candidate, Observation, State, unattributed, ambiguous, attributed, Entry, add, add_all, best_of,
  winners, conclude, reasons, score_all, resolve,
}

abbrev points : List (ℕ × String) → ℕ
points [] = 0
points ((score, reason) ∷ reasons) = score + points reasons

-- How many entries a project has, and its score by them.
abbrev entries_of : List Entry → String → ℕ
entries_of entries p = tally (λ e. str_eq e.project_id p) entries

abbrev lookup : List Entry → String → ℕ
lookup [] p = 0
lookup (e ∷ entries) p = if str_eq e.project_id p then e.score else lookup entries p

apart : (a b p : String) → str_eq a b ≡ false → str_eq a p ≡ true → str_eq b p ≡ false
apart a b p e f = elim (Bool-cases (str_eq b p)) [
  | inr g ↦ g
  | inl g ↦ absurd (cc (e, (eq_iff a b).1 ((eq_iff a p).0 f ∙ sym ((eq_iff b p).0 g))))
]

add-lookup :
    (q reason p : String) (s : ℕ) (es : List Entry)
    → lookup (add q s reason es) p ≡ lookup es p + (if str_eq q p then s else 0)
unfolding add
add-lookup q reason p s [] = ground arith
add-lookup q reason p s (e ∷ es) = elim (Bool-cases (str_eq e.project_id q)) [
  | inl b ↦ rw (b, sym ((eq_iff e.project_id q).0 b)) (ground arith)
  | inr b ↦ elim (Bool-cases (str_eq e.project_id p)) [
    | inl c ↦ rw (b, c, apart e.project_id q p b c) (omega arith)
    | inr c ↦ rw (b, c) (add-lookup q reason p s es)
  ]
]

add-entries_of :
    (q reason p : String) (s : ℕ) (es : List Entry)
    → entries_of (add q s reason es) p
      ≡ (if str_eq q p then max 1 (entries_of es p) else entries_of es p)
unfolding add
add-entries_of q reason p s [] = ground arith
add-entries_of q reason p s (e ∷ es) = elim (Bool-cases (str_eq e.project_id q)) [
  | inl b ↦ rw (b, sym ((eq_iff e.project_id q).0 b)) (ground arith)
  | inr b ↦ elim (Bool-cases (str_eq e.project_id p)) [
    | inl c ↦
        rw (b, c, apart e.project_id q p b c)
          (ground (arith, add-entries_of q reason p s es, apart e.project_id q p b c))
    | inr c ↦ rw (b, c) (ground (arith, add-entries_of q reason p s es))
  ]
]

-- No project has two entries.
abbrev IsDistinct : List Entry → Type 0
IsDistinct es = (p : String) → entries_of es p ≤ 1

add_all-lookup :
    (q p : String) (rs : List (ℕ × String)) (es : List Entry)
    → lookup (add_all q rs es) p ≡ lookup es p + (if str_eq q p then points rs else 0)
unfolding add_all
add_all-lookup q p [] es = ground arith
add_all-lookup q p ((s, reason) ∷ rs) es =
    ground (arith, add_all-lookup q p rs (add q s reason es), add-lookup q reason p s es)

add_all-IsDistinct :
    (q : String) (rs : List (ℕ × String)) (es : List Entry)
    → IsDistinct es
    → IsDistinct (add_all q rs es)
unfolding add_all
add_all-IsDistinct q [] es d = d
add_all-IsDistinct q ((s, reason) ∷ rs) es d =
    add_all-IsDistinct q rs (add q s reason es)
      (λ p. ground (arith, add-entries_of q reason p s es, d p))

lookup-absent : (es : List Entry) (p : String) → entries_of es p ≡ 0 → lookup es p ≡ 0
lookup-absent [] p e = refl
lookup-absent (e ∷ es) p n = ground (arith, lookup-absent es p)

lookup-le-best_of : (es : List Entry) (p : String) → lookup es p ≤ best_of es
unfolding best_of
lookup-le-best_of [] p = omega arith
lookup-le-best_of (e ∷ es) p = ground (arith, lookup-le-best_of es p)

best_of-le :
    (es : List Entry) (m : ℕ) → IsDistinct es → ((p : String) → lookup es p ≤ m) → best_of es ≤ m
unfolding best_of
best_of-le [] m d h = omega arith
best_of-le (e ∷ es) m d h =
    let here : e.score ≤ m =
      ground (arith, h e.project_id, (eq_iff e.project_id e.project_id).1 refl) in
    let later =
      best_of-le es m (λ p. omega (arith, d p))
        (λ p. ground (arith, h p, d p, lookup-absent es p)) in
    omega (arith, here, later)

winners-absent :
    (best : ℕ) (es : List Entry) (p : String)
    → tally (λ n. str_eq n p) (winners best es) ≤ entries_of es p
unfolding winners
winners-absent best [] p = omega arith
winners-absent best (e ∷ es) p = ground (arith, winners-absent best es p)

-- A project stands among the winners once if it has the best score and that is positive.
winners-tally :
    (best : ℕ) (es : List Entry) (p : String)
    → IsDistinct es
    → tally (λ n. str_eq n p) (winners best es)
      ≡ (if lookup es p == best && ltb 0 (lookup es p) then 1 else 0)
unfolding winners
winners-tally best [] p d = ground arith
winners-tally best (e ∷ es) p d =
    ground (arith, winners-absent best es p, winners-tally best es p (λ q. omega (arith, d q)), d p)

-- The state that goes with so many projects.
abbrev pub state_of : List String → State
state_of [] = unattributed
state_of (p ∷ []) = attributed
state_of (p ∷ q ∷ ps) = ambiguous

conclude-ids :
    (best : ℕ) (es : List Entry) (ids : List String)
    → ((conclude best es ids).project_ids ≡ ids) × ((conclude best es ids).state ≡ state_of ids)
unfolding conclude
conclude-ids best es [] = (refl, refl)
conclude-ids best es (p ∷ []) = (refl, refl)
conclude-ids best es (p ∷ q ∷ ps) = (refl, refl)

module _ (unicode : Unicode) (o : Observation) where
  -- All points of a project's candidates.
  abbrev pub score_of : List Candidate → String → ℕ
  score_of [] p = 0
  score_of (c ∷ cs) p =
      (if not (str_eq c.project_id "") && str_eq c.project_id p
        then points (reasons unicode o c)
        else 0)
      + score_of cs p

  -- A project that has points, and no other has more.
  abbrev pub Leads : List Candidate → String → Type 0
  Leads cs p = (0 < score_of cs p) × ((q : String) → score_of cs q ≤ score_of cs p)

  score_all-lookup :
      (cs : List Candidate) (es : List Entry) (p : String)
      → lookup (score_all unicode o cs es) p ≡ lookup es p + score_of cs p
  unfolding score_all
  score_all-lookup [] es p = omega arith
  score_all-lookup (c ∷ cs) es p = elim (Bool-cases (str_eq c.project_id "")) [
    | inl b ↦ rw b (omega (arith, score_all-lookup cs es p))
    | inr b ↦ rw b (
        ground (
          arith,
          score_all-lookup cs (add_all c.project_id (reasons unicode o c) es) p,
          add_all-lookup c.project_id p (reasons unicode o c) es,
        ))
  ]

  score_all-IsDistinct :
      (cs : List Candidate) (es : List Entry)
      → IsDistinct es
      → IsDistinct (score_all unicode o cs es)
  unfolding score_all
  score_all-IsDistinct [] es d = d
  score_all-IsDistinct (c ∷ cs) es d = elim (Bool-cases (str_eq c.project_id "")) [
    | inl b ↦ rw b (score_all-IsDistinct cs es d)
    | inr b ↦
        rw b
          (score_all-IsDistinct cs _ (add_all-IsDistinct c.project_id (reasons unicode o c) es d))
  ]

  IsDistinct-all : (cs : List Candidate) → IsDistinct (score_all unicode o cs [])
  IsDistinct-all cs = score_all-IsDistinct cs [] (λ p. omega arith)

  lookup-all :
      (cs : List Candidate) (p : String) → lookup (score_all unicode o cs []) p ≡ score_of cs p
  lookup-all cs p = omega (arith, score_all-lookup cs [] p)

  winners-Leads :
      (cs : List Candidate) (p : String)
      → let es = score_all unicode o cs [] in
        let n = tally (λ n. str_eq n p) (winners (best_of es) es) in
        (Leads cs p × (n ≡ 1)) ⊎ ((Leads cs p → ⊥) × (n ≡ 0))
  winners-Leads cs p =
      let es = score_all unicode o cs [] in
      let best = best_of es in
      let count = winners-tally best es p (IsDistinct-all cs) in
      let mine = lookup-all cs p in
      elim (Bool-cases (lookup es p == best && ltb 0 (lookup es p))) [
        | inl b ↦ inl (
          (
            ground (arith, mine),
            λ q. ground (arith, mine, lookup-all cs q, lookup-le-best_of es q),
          ),
          count ∙ rw b refl,
        )
        | inr b ↦ inr (
          (λ leads.
              let least =
                best_of-le es (score_of cs p) (IsDistinct-all cs)
                  (λ q. omega (arith, lookup-all cs q, leads.1 q)) in
              ground (arith, mine, least, leads.0, lookup-le-best_of es p)),
          count ∙ rw b refl,
        )
      ]

  resolve-inv :
      (cs : List Candidate)
      → o.temporary ≡ false
      → length o.project_ids ≤ 1
      → let es = score_all unicode o cs [] in
        resolve unicode o cs ≡ conclude (best_of es) es (sort str_lt (winners (best_of es) es))
  unfolding resolve
  resolve-inv cs t l =
      let few : ltb 1 (length o.project_ids) ≡ false = ground arith in rw (resolve, t, few) refl

  -- For an observation that is not of a temporary directory and names no two projects itself, a
  -- project is named once if it has points and no other has more, and not at all otherwise. One such
  -- project is attributed, several are ambiguous, and none is unattributed.
  pub resolve-Leads :
      (cs : List Candidate)
      → o.temporary ≡ false
      → length o.project_ids ≤ 1
      → let r = resolve unicode o cs in
        ((p : String)
          → (Leads cs p × (tally (λ n. str_eq n p) r.project_ids ≡ 1))
            ⊎ ((Leads cs p → ⊥) × (tally (λ n. str_eq n p) r.project_ids ≡ 0)))
        × (r.state ≡ state_of r.project_ids)
  resolve-Leads cs t l =
      let es = score_all unicode o cs [] in
      let best = best_of es in
      let named = sort str_lt (winners best es) in
      let (ids, state) = conclude-ids best es named in
      let count = λ (p : String).
        ap (tally (λ n. str_eq n p)) ids ∙ tally-sort str_lt (λ n. str_eq n p) (winners best es) in
      rw (resolve-inv cs t l) (
        (λ p. elim (winners-Leads cs p) [
          | inl (leads, n) ↦ inl (leads, count p ∙ n)
          | inr (behind, n) ↦ inr (behind, count p ∙ n)
        ]),
        state ∙ ap state_of (sym ids),
      )
