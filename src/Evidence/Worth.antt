-- ===== src/Evidence/Worth.antt =====
-- What becomes of sanitised attributes in `Validate` and `ParseLineage`.
use mathlib.Core.Path.{subst}
use codex_prompt_better.Base.{
  ℕ, ◌≡◌, refl, sym, String, Bool, true, false, ◌&&◌, ◌||◌, str_eq, eq_iff, leb, ◌==◌, List, [],
  ◌∷◌, some, inl, inr, ok, Bool-cases, All,
}
use Prim.Native.Char.{Char, code}
use codex_prompt_better.Base.Patterns.{Unicode, to_lower, str_contains}
use codex_prompt_better.Evidence.Sensitive.{sensitive_key, secret_like, keyed_attribute}
use codex_prompt_better.Evidence.Record.{
  Attributes, Record, lookup, leaks, validate, parse_lineage, is_empty,
}
use codex_prompt_better.Evidence.Sanitize.{sanitize}
use codex_prompt_better.Evidence.Laws.{IsClean, IsAlias, sanitize-IsSorted}

pub or-eq-false : {a b : Bool} → a ≡ false → b ≡ false → (a || b) ≡ false
or-eq-false e f = rw (e, f) refl

-- A record with what `Validate` wants of one besides its attributes.
pub record IsFilled (r : Record) : Type 0 where
  pub id : is_empty r.id ≡ false
  pub kind : is_empty r.source_kind ≡ false
  pub ingested : (r.ingested_at == 0) ≡ false
  pub observed : (r.observed_at == 0) ≡ false

module _ (unicode : Unicode) where
  pub validate-filled :
      (r : Record) (attributes : Attributes) (redacted : List String)
      → IsFilled r
      → r.attributes ≡ some attributes
      → r.redacted_fields ≡ some redacted
      → leaks unicode attributes ≡ false
      → validate unicode r ≡ ok tt
  unfolding validate
  validate-filled r attributes redacted f a b safe =
      rw (validate, f.id, f.kind, f.ingested, f.observed, a, b, safe) refl

  -- What `unicode.ToLower` leaves: small letters of ASCII and `_`.
  abbrev pub KeepsSmall : Type 0
  KeepsSmall =
      (c : Char)
      → (leb 97 (code c) && leb (code c) 122 || code c == 95) ≡ true
      → unicode.lower c ≡ c

module _ (unicode : Unicode) (mac : List ℕ → String → String) (kind : String) (key : List ℕ) where
  module _ (hex : (text : String) → secret_like unicode (mac key text) ≡ false) where
    IsAlias-secret_like :
        (field value : String)
        → IsAlias unicode mac kind key field value
        → secret_like unicode value ≡ false
    unfolding secret_like
    IsAlias-secret_like field value (inl e) =
        subst (λ v. secret_like unicode v ≡ false) (sym e) refl
    IsAlias-secret_like field value (inr (raw, e)) =
        subst (λ v. secret_like unicode v ≡ false) (sym e) (hex _)

    IsClean-secret_like :
        (field value : String)
        → IsClean unicode mac kind key (field, value)
        → secret_like unicode value ≡ false
    IsClean-secret_like field value (_, _, keyed, plain) =
        elim (Bool-cases (keyed_attribute field)) [
          | inl k ↦ IsAlias-secret_like field value (keyed k)
          | inr k ↦ (plain k).1
        ]

    pub leaks-eq-false :
        (clean : Attributes)
        → All (IsClean unicode mac kind key) clean
        → leaks unicode clean ≡ false
    unfolding leaks
    leaks-eq-false [] a = refl
    leaks-eq-false ((field, value) ∷ clean) (c, a) =
        let s = IsClean-secret_like field value c in
        or-eq-false (or-eq-false c.1 s) (leaks-eq-false clean a)

    -- A record that has an identity, a kind, its times and what the sanitiser gives is valid, if the
    -- text of a keyed hash never looks like a secret.
    pub validate-sanitize :
        (attributes clean : Attributes) (redacted : List String) (r : Record)
        → sanitize unicode mac kind key attributes ≡ ok (clean, redacted)
        → IsFilled r
        → r.attributes ≡ some clean
        → r.redacted_fields ≡ some redacted
        → validate unicode r ≡ ok tt
    validate-sanitize attributes clean redacted r e f a b =
        let (all, _, _, _) = sanitize-IsSorted unicode mac kind key attributes clean redacted e in
        validate-filled unicode r clean redacted f a b (leaks-eq-false clean all)

  lookup-eq-empty :
      (clean : Attributes) (name : String)
      → All (IsClean unicode mac kind key) clean
      → sensitive_key unicode name ≡ true
      → lookup clean name ≡ ""
  unfolding lookup
  lookup-eq-empty [] name a s = refl
  lookup-eq-empty ((field, value) ∷ clean) name (c, a) s = elim (Bool-cases (str_eq field name)) [
    | inl e ↦ let same : field ≡ name = (eq_iff field name).0 e in absurd (cc (c.1, s, same))
    | inr e ↦ rw e (lookup-eq-empty clean name a s)
  ]

  call_path-sensitive : KeepsSmall unicode → sensitive_key unicode "call_path" ≡ true
  unfolding sensitive_key to_lower str_contains
  call_path-sensitive keeps =
      rw
        (
          keeps "c" refl,
          keeps "a" refl,
          keeps "l" refl,
          keeps "_" refl,
          keeps "p" refl,
          keeps "t" refl,
          keeps "h" refl,
        )
        refl

  -- The lineage of sanitised attributes has no call path, whatever the source gave.
  pub parse_lineage-call_path :
      (attributes clean : Attributes) (redacted : List String)
      → KeepsSmall unicode
      → sanitize unicode mac kind key attributes ≡ ok (clean, redacted)
      → (parse_lineage clean).call_path ≡ ""
  unfolding parse_lineage
  parse_lineage-call_path attributes clean redacted keeps e =
      let (all, _, _, _) = sanitize-IsSorted unicode mac kind key attributes clean redacted e in
      lookup-eq-empty clean "call_path" all (call_path-sensitive keeps)
