-- ===== src/Boundary/Selection/Bounded.antt =====
-- What a property of every entry, and the bound, become under `selectDecision` in
-- internal/boundary/engine.go.
use codex_prompt_better.Base.{
  ℕ, suc, ◌≤◌, ◌<◌, ◌≡◌, refl, ap, Bool, ltb, List, [], ◌∷◌, length, arith, All, Bool-cases,
  Option-cases, ltb→lt, inl, inr,
}
use codex_prompt_better.Boundary.Selection.{push, last_of, without_last, select, select_all}
use codex_prompt_better.Boundary.Selection.Laws.{All-push, length-push}

module _ {A : Type 0} (better : A → A → Bool) where
  All-without_last : (P : A → Type 0) (xs : List A) → All P xs → All P (without_last better xs)
  unfolding without_last
  All-without_last P [] a = tt
  All-without_last P (x ∷ []) a = tt
  All-without_last P (x ∷ y ∷ ys) a = (a.0, All-without_last P (y ∷ ys) a.1)

  length-without_last : (x : A) (xs : List A) → length (without_last better (x ∷ xs)) ≡ length xs
  unfolding without_last
  length-without_last x [] = refl
  length-without_last x (y ∷ ys) = ap suc (length-without_last y ys)

  -- A selection keeps its members, gains the entry below its bound, or loses its last for it.
  data Selected (n : ℕ) (xs : List A) (e : A) : List A → Type 0 where
    kept : Selected n xs e xs
    gained : length xs < n → Selected n xs e (push better e xs)
    exchanged : Selected n xs e (push better e (without_last better xs))

  select-Selected : (n : ℕ) (xs : List A) (e : A) → Selected n xs e (select better n xs e)
  unfolding select
  select-Selected n xs e = elim (Bool-cases (ltb (length xs) n)) [
    | inl room ↦ rw (select, room) (Selected.gained (ltb→lt (length xs) n room))
    | inr full ↦ elim (Option-cases (last_of better xs)) [
      | inl empty ↦ rw (select, full, empty) Selected.kept
      | inr (r, last) ↦ elim (Bool-cases (better e r)) [
        | inl b ↦ rw (select, full, last, b) Selected.exchanged
        | inr b ↦ rw (select, full, last, b) Selected.kept
      ]
    ]
  ]

  Selected-All :
      (P : A → Type 0) (n : ℕ) (xs : List A) (e : A) {r : List A}
      → Selected n xs e r
      → All P xs
      → P e
      → All P r
  Selected-All P n xs e Selected.kept a p = a
  Selected-All P n xs e (Selected.gained room) a p = All-push better P e xs p a
  Selected-All P n xs e Selected.exchanged a p =
      All-push better P e (without_last better xs) p (All-without_last P xs a)

  Selected-length :
      (n : ℕ) (xs : List A) (e : A) {r : List A}
      → Selected n xs e r
      → 0 < n
      → length xs ≤ n
      → length r ≤ n
  unfolding push without_last
  Selected-length n xs e Selected.kept z h = h
  Selected-length n xs e (Selected.gained room) z h = omega (arith, length-push better e xs)
  Selected-length n [] e Selected.exchanged z h = omega (arith, length-push better e [])
  Selected-length n (x ∷ xs) e Selected.exchanged z h =
      omega (arith, length-push better e (without_last better (x ∷ xs)), length-without_last x xs)

  pub select_all-All :
      (P : A → Type 0) (n : ℕ) (xs es : List A)
      → All P xs
      → 0 < n
      → length xs ≤ n
      → All P es
      → All P (select_all better n xs es) × (length (select_all better n xs es) ≤ n)
  unfolding select_all
  select_all-All P n xs [] a z l b = (a, l)
  select_all-All P n xs (e ∷ es) a z l b =
      let chosen = select-Selected n xs e in
      select_all-All P n (select better n xs e) es (Selected-All P n xs e chosen a b.0) z
        (Selected-length n xs e chosen z l) b.1
