-- ===== src/Base/Places.antt =====
-- Members with their places, and parts of lists.
use Prim.Native.Nat.{ℕ, zero, suc, ◌+◌, ◌-◌, min}
use mathlib.Core.Path.{◌≡◌, refl, sym, ap, ◌∙◌}
use mathlib.Core.List.{List, [], ◌∷◌, ◌++◌, map}
use native.Mathlib.Omega.{arith}
use codex_prompt_better.Base.Lists.{length, take, drop}

-- The members with their places, counted on from a number.
abbrev pub numbered {ℓ} : {A : Type ℓ} → ℕ → List A → List (ℕ × A)
numbered n [] = []
numbered n (x ∷ xs) = (n + 1, x) ∷ numbered (n + 1) xs

module _ {ℓ} {A : Type ℓ} where
  pub length-drop : (k : ℕ) (xs : List A) → length (drop k xs) ≡ length xs - k
  length-drop zero xs = omega arith
  length-drop (suc k) [] = omega arith
  length-drop (suc k) (x ∷ xs) = length-drop k xs ∙ omega arith

  take-nil : (n : ℕ) → ◌≡◌ {A = List A} (take n []) []
  take-nil zero = refl
  take-nil (suc n) = refl

  drop-nil : (n : ℕ) → ◌≡◌ {A = List A} (drop n []) []
  drop-nil zero = refl
  drop-nil (suc n) = refl

  pub take-add : (a b : ℕ) (xs : List A) → take (a + b) xs ≡ take a xs ++ take b (drop a xs)
  take-add zero b xs = ap (λ n. take n xs) (omega arith)
  take-add (suc a) b [] = take-nil (suc a + b) ∙ sym (take-nil b)
  take-add (suc a) b (x ∷ xs) =
      let one : suc a + b ≡ suc (a + b) = omega arith in
      ap (λ n. take n (x ∷ xs)) one ∙ ap (λ r. x ∷ r) (take-add a b xs)

  pub drop-add : (a b : ℕ) (xs : List A) → drop (a + b) xs ≡ drop b (drop a xs)
  drop-add zero b xs = ap (λ n. drop n xs) (omega arith)
  drop-add (suc a) b [] = drop-nil (suc a + b) ∙ sym (drop-nil b)
  drop-add (suc a) b (x ∷ xs) =
      let one : suc a + b ≡ suc (a + b) = omega arith in
      ap (λ n. drop n (x ∷ xs)) one ∙ drop-add a b xs

  pub drop-min : (k : ℕ) (xs : List A) → drop (min k (length xs)) xs ≡ drop k xs
  drop-min zero xs = let none : min 0 (length xs) ≡ 0 = omega arith in ap (λ n. drop n xs) none
  drop-min (suc k) [] = drop-nil (min (suc k) 0)
  drop-min (suc k) (x ∷ xs) =
      let more : min (suc k) (suc (length xs)) ≡ suc (min k (length xs)) = omega arith in
      ap (λ n. drop n (x ∷ xs)) more ∙ drop-min k xs

  pub drop-numbered :
      (k n : ℕ) (xs : List A) → drop k (numbered n xs) ≡ numbered (n + k) (drop k xs)
  drop-numbered zero n xs = ap (λ m. numbered m xs) (omega arith)
  drop-numbered (suc k) n [] = refl
  drop-numbered (suc k) n (x ∷ xs) =
      drop-numbered k (n + 1) xs ∙ ap (λ m. numbered m (drop k xs)) (omega arith)

  length-numbered : (n : ℕ) (xs : List A) → length (numbered n xs) ≡ length xs
  length-numbered n [] = refl
  length-numbered n (x ∷ xs) = ap suc (length-numbered (n + 1) xs)

-- The next members behind k taken from place c stand where a cursor is that has moved over them.
pub numbered-moved {ℓ} :
    {A : Type ℓ} (c k b : ℕ) (xs : List A)
    → take (k + b) (numbered c (drop c xs))
      ≡ take k (numbered c (drop c xs))
        ++ take b
            (numbered (c + min k (length (drop c xs))) (drop (c + min k (length (drop c xs))) xs))
numbered-moved c k b xs =
    let rest = drop c xs in
    let all = numbered c rest in
    let moved = min k (length rest) in
    let behind : drop k all ≡ numbered (c + moved) (drop (c + moved) xs) =
      sym (drop-min k all)
      ∙ ap (λ n. drop (min k n) all) (length-numbered c rest)
      ∙ drop-numbered moved c rest
      ∙ ap (numbered (c + moved)) (sym (drop-add c moved xs)) in
    take-add k b all ∙ ap (λ r. take k all ++ take b r) behind

pub map-append {ℓ κ} :
    {A : Type ℓ} {B : Type κ} (f : A → B) (xs ys : List A) → map f (xs ++ ys) ≡ map f xs ++ map f ys
map-append f [] ys = refl
map-append f (x ∷ xs) ys = ap (λ r. f x ∷ r) (map-append f xs ys)
