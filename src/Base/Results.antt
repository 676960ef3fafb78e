-- ===== src/Base/Results.antt =====
-- Go's `(value, error)` as a value of one type, and the error of `contracts.NewError`.
use mathlib.Core.Path.{◌≡◌, refl}
use mathlib.Core.Bool.{Bool, true, false}
use mathlib.Core.Logic.{◌⊎◌, inl, inr}
use codex_prompt_better.Base.Tests.{if◌then◌else◌}

pub data Result {ℓ κ} (E : Type κ) (A : Type ℓ) : Type (ℓ ⊔ κ) where
  ok : A → Result E A
  err : E → Result E A

-- `if !test { return err }`.
abbrev pub require {ι} : {E : Type ι} → Bool → E → Result E (Unit {0})
require true e = ok tt
require false e = err e

abbrev pub is_ok {ℓ κ} : {E : Type κ} {A : Type ℓ} → Result E A → Bool
is_ok (ok a) = true
is_ok (err e) = false

infixl 5 ◌>>=◌ ◌>>◌
-- The rest of a function runs on the value, behind `if err != nil { return err }`.
abbrev pub ◌>>=◌ {κ ℓ ι} :
    {E : Type ι} {A : Type ℓ} {B : Type κ} → Result E A → (A → Result E B) → Result E B
err failure >>= rest = err failure
ok value >>= rest = rest value

abbrev pub ◌>>◌ {κ ι} : {E : Type ι} {B : Type κ} → Result E (Unit {0}) → Result E B → Result E B
first >> second = first >>= λ _. second

-- A chain that ends well has done so at each of its two parts.
pub >>=-eq-ok {κ ℓ ι} :
    {E : Type ι} {A : Type ℓ} {B : Type κ} (first : Result E A) (rest : A → Result E B) {b : B}
    → (first >>= rest) ≡ ok b
    → (a : A) × (first ≡ ok a) × (rest a ≡ ok b)
>>=-eq-ok (err failure) rest ended = cc
>>=-eq-ok (ok value) rest ended = (value, refl, ended)

pub ok-injective {ℓ κ} :
    {E : Type κ} {A : Type ℓ} {a b : A} → ◌≡◌ {A = Result E A} (ok a) (ok b) → a ≡ b
ok-injective h = cc

-- Inversion of a guarded result.
pub if-eq-ok {ℓ κ} :
    {E : Type κ} {A : Type ℓ} (test : Bool) (e : E) (r : Result E A) {a : A}
    → (if test then err e else r) ≡ ok a
    → (test ≡ false) × (r ≡ ok a)
if-eq-ok true e r h = cc
if-eq-ok false e r h = (refl, h)

pub Result-cases {ℓ κ} :
    {E : Type κ} {A : Type ℓ} (r : Result E A) → ((e : E) × (r ≡ err e)) ⊎ ((a : A) × (r ≡ ok a))
Result-cases (err e) = inl (e, refl)
Result-cases (ok a) = inr (a, refl)
