-- ===== src/Runtime/Union.antt =====
-- `UnionDuration` against the number of instants that the intervals cover.
use codex_prompt_better.Base.{
  ℕ, zero, suc, ◌+◌, ◌-◌, ◌^◌, ◌≤◌, ◌<◌, ◌≡◌, refl, ◌∙◌, Bool, false, ◌&&◌, ◌||◌, if◌then◌else◌,
  ltb, leb, List, [], ◌∷◌, arith, keep, some_of, All, Bool-cases, inl, inr, String, ap, sym, min,
}
use codex_prompt_better.Base.Sorting.{
  sort, insert, IsOrdered, IsStrictWeak, sort-IsOrdered, All-sort,
}
use codex_prompt_better.Runtime.{
  Interval, sub_time, add_duration, starts_before, selects, sweep, sweep_all, union_duration,
}

-- The number of the instants below a bound that pass a test.
pub count_below : ℕ → (ℕ → Bool) → ℕ
count_below zero p = 0
count_below (suc n) p = (if p n then 1 else 0) + count_below n p

-- The instant lies in the interval, or in one of them.
abbrev pub covers : Interval → ℕ → Bool
covers i t = leb i.start t && ltb t i.end

abbrev pub covered : List Interval → ℕ → Bool
covered is t = some_of (λ i. covers i t) is

count-ext : (n : ℕ) (p q : ℕ → Bool) → ((t : ℕ) → p t ≡ q t) → count_below n p ≡ count_below n q
unfolding count_below
count-ext zero p q h = refl
count-ext (suc n) p q h = rw (h n, count-ext n p q h)

count-disjoint :
    (n : ℕ) (p q : ℕ → Bool)
    → ((t : ℕ) → (p t && q t) ≡ false)
    → count_below n (λ t. p t || q t) ≡ count_below n p + count_below n q
unfolding count_below
count-disjoint zero p q h = omega arith
count-disjoint (suc n) p q h = ground (arith, h n, count-disjoint n p q h)

count-none : (n : ℕ) → count_below n (λ t. false) ≡ 0
unfolding count_below
count-none zero = refl
count-none (suc n) = omega (arith, count-none n)

-- An interval below the bound covers as many instants as it is long.
count-interval : (n s e : ℕ) → count_below n (λ t. leb s t && ltb t e) ≡ min n e - s
unfolding count_below
count-interval zero s e = omega arith
count-interval (suc n) s e = ground (arith, count-interval n s e)

-- What `insert` and `sort` do to the instants covered: nothing.
covered-insert :
    (i : Interval) (is : List Interval) (t : ℕ)
    → covered (insert starts_before i is) t ≡ covered (i ∷ is) t
unfolding insert
covered-insert i [] t = refl
covered-insert i (j ∷ js) t = ground (arith, covered-insert i js t)

covered-sort : (is : List Interval) (t : ℕ) → covered (sort starts_before is) t ≡ covered is t
unfolding sort
covered-sort [] t = refl
covered-sort (i ∷ is) t =
    covered-insert i (sort starts_before is) t
    ∙ ap (λ (b : Bool). covers i t || b) (covered-sort is t)

starts_before-weak : IsStrictWeak starts_before
starts_before-weak = record { asym = λ x y h. ground arith; weak = λ x y z h k. ground arith }

-- The interval is not empty and ends by the bound.
abbrev pub Fits : ℕ → Interval → Type 0
Fits n i = (i.start ≤ i.end) × (i.end ≤ n)

not_covered_before :
    (e t : ℕ) (is : List Interval) → t < e → All (λ i. e ≤ i.start) is → covered is t ≡ false
not_covered_before e t [] h a = refl
not_covered_before e t (i ∷ is) h a = ground (arith, not_covered_before e t is h a.1)

starts_after :
    (j : Interval) (is : List Interval) (e : ℕ)
    → e ≤ j.start
    → All (λ y. starts_before y j ≡ false) is
    → All (λ i. e ≤ i.start) is
starts_after j [] e h a = tt
starts_after j (i ∷ is) e h a = (ground arith, starts_after j is e h a.1)

module _ (s e : ℕ) (i : Interval) (is : List Interval)
    (later : All (λ j. e ≤ j.start) (i ∷ is)) where
  apart_disjoint : (t : ℕ) → ((leb s t && ltb t e) && covered (i ∷ is) t) ≡ false
  apart_disjoint t = elim (Bool-cases (ltb t e)) [
    | inl l ↦
        let none_yet = not_covered_before e t (i ∷ is) (ground arith) later in
        rw none_yet (ground arith)
    | inr g ↦ rw g (ground arith)
  ]

  count-apart :
      (n : ℕ)
      → s ≤ e
      → e ≤ n
      → count_below n (λ t. (leb s t && ltb t e) || covered (i ∷ is) t)
        ≡ (e - s) + count_below n (covered (i ∷ is))
  count-apart n h f = omega (
    arith,
    count-disjoint n (λ t. leb s t && ltb t e) (covered (i ∷ is)) apart_disjoint,
    count-interval n s e,
  )

join_intervals :
    (s e : ℕ) (i : Interval) (is : List Interval) (t : ℕ)
    → s ≤ i.start
    → i.start ≤ e
    → ((leb s t && ltb t (if ltb e i.end then i.end else e)) || covered is t)
      ≡ ((leb s t && ltb t e) || covered (i ∷ is) t)
join_intervals s e i is t h k = ground arith

add_duration_exact :
    (total s e n : ℕ)
    → total ≤ s
    → s ≤ e
    → e ≤ n
    → n < 2 ^ 63
    → add_duration total (sub_time e s) ≡ total + (e - s)
unfolding add_duration sub_time
add_duration_exact total s e n b h f small = omega arith

-- The sweep, with the current interval `[s, e)` and the time before it counted already.
module _ (n : ℕ) (small : n < 2 ^ 63) where
  sweep-count :
      (is : List Interval) (s e total : ℕ)
      → total ≤ s
      → s ≤ e
      → e ≤ n
      → All (Fits n) is
      → All (λ i. s ≤ i.start) is
      → IsOrdered starts_before is
      → sweep s e total is ≡ total + count_below n (λ t. (leb s t && ltb t e) || covered is t)
  unfolding sweep
  sweep-count [] s e total b h f a l o =
      let alone =
        count-ext n (λ t. (leb s t && ltb t e) || false) (λ t. leb s t && ltb t e)
          (λ t. ground arith) in
      omega (arith, alone, add_duration_exact total s e n b h f small, count-interval n s e)
  sweep-count (i ∷ is) s e total b h f a l o = elim (Bool-cases (ltb e i.start)) [
    | inl apart ↦
        let e≤i : e ≤ i.start = ground arith in
        let exact = add_duration_exact total s e n b h f small in
        let rest =
          sweep-count is i.start i.end (total + (e - s)) (omega arith) a.0.0 a.0.1 a.1
            (starts_after i is i.start (omega arith) o.0) o.1 in
        rw (sweep, apart, exact, rest)
          (omega (arith, count-apart s e i is (e≤i, starts_after i is e e≤i o.0) n h f))
    | inr joined ↦
        let i≤e : i.start ≤ e = ground arith in
        let e' = if ltb e i.end then i.end else e in
        let rest = sweep-count is s e' total b (ground arith) (ground arith) a.1 l.1 o.1 in
        rw (sweep, joined, rest)
          (ap (λ (k : ℕ). total + k) (count-ext n _ _ (λ t. join_intervals s e i is t l.0 i≤e)))
  ]

  sweep_all-count :
      (is : List Interval)
      → All (Fits n) is
      → IsOrdered starts_before is
      → sweep_all is ≡ count_below n (covered is)
  unfolding sweep_all
  sweep_all-count [] a o = sym (count-none n)
  sweep_all-count (i ∷ is) a o =
      sweep-count is i.start i.end 0 (omega arith) a.0.0 a.0.1 a.1
        (starts_after i is i.start (omega arith) o.0) o.1
      ∙ omega arith

keep-Fits :
    (n : ℕ) (included : String → Bool) (is : List Interval)
    → All (λ i. i.end ≤ n) is
    → All (Fits n) (keep (selects included) is)
keep-Fits n included [] a = tt
keep-Fits n included (i ∷ is) a = elim (Bool-cases (selects included i)) [
  | inl e ↦ rw e ((ground arith, a.0), keep-Fits n included is a.1)
  | inr e ↦ rw e (keep-Fits n included is a.1)
]

-- If every interval ends by the instant `n`, less than 2^63 nanoseconds after the origin, the
-- duration is the number of instants that the included intervals cover, each counted once however
-- they overlap and in whatever order they are given; no sum on the way saturates or wraps.
pub union_duration-count :
    (n : ℕ) (intervals : List Interval) (included : String → Bool)
    → n < 2 ^ 63
    → All (λ i. i.end ≤ n) intervals
    → union_duration intervals included
      ≡ count_below n (covered (keep (selects included) intervals))
unfolding union_duration
union_duration-count n intervals included small a =
    let chosen = keep (selects included) intervals in
    sweep_all-count n small (sort starts_before chosen)
      (All-sort starts_before (Fits n) chosen (keep-Fits n included intervals a))
      (sort-IsOrdered starts_before-weak chosen)
    ∙ count-ext n (covered (sort starts_before chosen)) (covered chosen) (covered-sort chosen)
