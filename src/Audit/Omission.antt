-- ===== src/Audit/Omission.antt =====
-- `omitLast` and `omitOneEvidenceReference`: one item less, from the end.
use codex_prompt_better.Base.{
  ℕ, suc, ◌+◌, ◌≡◌, refl, ap, List, [], ◌∷◌, map, Option, none, some, length, arith,
}

module _ {A : Type 0} where
  unfoldable pub front : A → List A → List A
  front x [] = []
  front x (y ∷ ys) = x ∷ front y ys

  -- `none` for an empty slice.
  unfoldable pub omit_last : List A → Option (List A)
  unfolding front
  omit_last [] = none
  omit_last (x ∷ xs) = some (front x xs)

  pub length-front : (x : A) (xs : List A) → length (front x xs) ≡ length xs
  unfolding front
  length-front x [] = refl
  length-front x (y ∷ ys) = ap suc (length-front y ys)

  -- The first of two attempts that gives something.
  abbrev pub or_else : Option A → Option A → Option A
  or_else none b = b
  or_else (some a) b = some a

-- Items that hold a list each, from which the last holder loses its last.
module _ {A B : Type 0} (held : A → List B) (hold : A → List B → A) where
  abbrev pub omit_in : A → Option (List B) → Option A
  omit_in x none = none
  omit_in x (some held) = some (hold x held)

  abbrev before : A → List A → Option (List A) → Option A → Option (List A)
  before x xs (some ys) here = some (x ∷ ys)
  before x xs none (some y) = some (y ∷ xs)
  before x xs none none = none

  unfoldable pub omit_held : List A → Option (List A)
  unfolding omit_last
  omit_held [] = none
  omit_held (x ∷ xs) = before x xs (omit_held xs) (omit_in x (omit_last (held x)))

  abbrev pub total : List A → ℕ
  total [] = 0
  total (x ∷ xs) = length (held x) + total xs

  -- What an omission leaves: as it was but for one item, or nothing to omit. `rest` is what an item
  -- has besides the list.
  module _ {C : Type 0} (rest : A → C) (held-hold : (x : A) (ys : List B) → held (hold x ys) ≡ ys)
      (rest-hold : (x : A) (ys : List B) → rest (hold x ys) ≡ rest x) where
    pub data Omitted (xs : List A) : Option (List A) → Type 0 where
      empty : total xs ≡ 0 → Omitted xs none
      shorter :
          (ys : List A)
          → total xs ≡ suc (total ys)
          → map rest ys ≡ map rest xs
          → Omitted xs (some ys)

    before-Omitted :
        (x : A) (xs : List A) (o : Option (List A)) (l : List B)
        → held x ≡ l
        → Omitted xs o
        → Omitted (x ∷ xs) (before x xs o (omit_in x (omit_last l)))
    unfolding omit_last
    before-Omitted x xs none [] e (Omitted.empty z) = Omitted.empty (omega (arith, z, ap length e))
    before-Omitted x xs none (b ∷ bs) e (Omitted.empty z) =
        Omitted.shorter (hold x (front b bs) ∷ xs)
          (omega (arith, ap length e, ap length (held-hold x (front b bs)), length-front b bs, z))
          (ap (λ c. c ∷ map rest xs) (rest-hold x (front b bs)))
    before-Omitted x xs (some _) l e (Omitted.shorter ys n r) =
        Omitted.shorter (x ∷ ys) (omega (arith, n)) (ap (λ t. rest x ∷ t) r)

    pub omit_held-Omitted : (xs : List A) → Omitted xs (omit_held xs)
    unfolding omit_held
    omit_held-Omitted [] = Omitted.empty refl
    omit_held-Omitted (x ∷ xs) =
        before-Omitted x xs (omit_held xs) (held x) refl (omit_held-Omitted xs)
