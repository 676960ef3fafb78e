-- ===== src/Base/Sorting.antt =====
-- `sort.SliceStable`, and `sort.Strings`/`sort.Slice` where equal keys cannot be told apart or where
-- any order of equal keys is allowed: stable insertion by a comparison.
use mathlib.Core.Path.{◌≡◌, refl, sym, ◌∙◌}
use native.Mathlib.Omega.{arith}
use mathlib.Core.Bool.{Bool, true, false}
use mathlib.Core.List.{List, [], ◌∷◌, Perm}
use mathlib.Core.List.Perm
use codex_prompt_better.Base.Tests.{if◌then◌else◌, Bool-cases}
use codex_prompt_better.Base.Lists.{All, tally, tally-all, length}
use mathlib.Core.Logic.{inl, inr}

module _ {ℓ} {A : Type ℓ} (before : A → A → Bool) where
  unfoldable pub insert : A → List A → List A
  insert x [] = x ∷ []
  insert x (y ∷ ys) = if before y x then y ∷ insert x ys else x ∷ y ∷ ys

  unfoldable pub sort : List A → List A
  unfolding insert
  sort [] = []
  sort (x ∷ xs) = insert x (sort xs)

  -- No member stands after one that it should stand before.
  abbrev pub IsOrdered : List A → Type 0
  IsOrdered [] = Unit
  IsOrdered (x ∷ xs) = All (λ y. before y x ≡ false) xs × IsOrdered xs

  insert-perm : (x : A) (xs : List A) → Perm (insert x xs) (x ∷ xs)
  unfolding insert
  insert-perm x [] = Perm.rfl
  insert-perm x (y ∷ ys) = elim (Bool-cases (before y x)) [
    | inl e ↦ rw e (Perm.trans (Perm.cons y (insert-perm x ys)) (Perm.swap x y ys))
    | inr e ↦ rw e Perm.rfl
  ]

  -- Sorting loses and invents nothing.
  pub sort-perm : (xs : List A) → Perm (sort xs) xs
  unfolding sort
  sort-perm [] = Perm.rfl
  sort-perm (x ∷ xs) = Perm.trans (insert-perm x (sort xs)) (Perm.cons x (sort-perm xs))

  All-insert {κ} : (P : A → Type κ) (x : A) (xs : List A) → P x → All P xs → All P (insert x xs)
  unfolding insert
  All-insert P x [] p h = (p, h)
  All-insert P x (y ∷ ys) p h = elim (Bool-cases (before y x)) [
    | inl e ↦ rw e (h.0, All-insert P x ys p h.1)
    | inr e ↦ rw e (p, h)
  ]

  pub All-sort {κ} : (P : A → Type κ) (xs : List A) → All P xs → All P (sort xs)
  unfolding sort
  All-sort P [] h = h
  All-sort P (x ∷ xs) h = All-insert P x (sort xs) h.0 (All-sort P xs h.1)

module _ {ℓ} {A : Type ℓ} (before : A → A → Bool) (p : A → Bool) where
  tally-insert : (x : A) (xs : List A) → tally p (insert before x xs) ≡ tally p (x ∷ xs)
  unfolding insert
  tally-insert x [] = refl
  tally-insert x (y ∷ ys) = ground (arith, tally-insert x ys)

  -- As many members pass a test behind the sort as before it.
  pub tally-sort : (xs : List A) → tally p (sort before xs) ≡ tally p xs
  unfolding sort
  tally-sort [] = refl
  tally-sort (x ∷ xs) = tally-insert x (sort before xs) ∙ omega (arith, tally-sort xs)

pub length-sort {ℓ} :
    {A : Type ℓ} (before : A → A → Bool) (xs : List A) → length (sort before xs) ≡ length xs
length-sort before xs =
    sym (tally-all (sort before xs)) ∙ tally-sort before (λ _. true) xs ∙ tally-all xs

-- A comparison that `sort` may be given: a strict weak order.
pub record IsStrictWeak {ℓ} {A : Type ℓ} (before : A → A → Bool) : Type ℓ where
  pub asym : (x y : A) → before x y ≡ true → before y x ≡ false
  pub weak : (x y z : A) → before x y ≡ false → before y z ≡ false → before x z ≡ false

module _ {ℓ} {A : Type ℓ} {before : A → A → Bool} (w : IsStrictWeak before) where
  All-weak :
      (x y : A) (ys : List A)
      → before y x ≡ false
      → All (λ z. before z y ≡ false) ys
      → All (λ z. before z x ≡ false) ys
  All-weak x y [] e h = h
  All-weak x y (z ∷ zs) e h = (w.weak z y x h.0 e, All-weak x y zs e h.1)

  insert-IsOrdered :
      (x : A) (xs : List A) → IsOrdered before xs → IsOrdered before (insert before x xs)
  unfolding insert
  insert-IsOrdered x [] h = (tt, tt)
  insert-IsOrdered x (y ∷ ys) h = elim (Bool-cases (before y x)) [
    | inl e ↦ rw e (
      All-insert before (λ z. before z y ≡ false) x ys (w.asym y x e) h.0,
      insert-IsOrdered x ys h.1,
    )
    | inr e ↦ rw e ((e, All-weak x y ys e h.0), h)
  ]

  -- The result is in order.
  pub sort-IsOrdered : (xs : List A) → IsOrdered before (sort before xs)
  unfolding sort
  sort-IsOrdered [] = tt
  sort-IsOrdered (x ∷ xs) = insert-IsOrdered x (sort before xs) (sort-IsOrdered xs)
