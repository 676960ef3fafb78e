-- ===== src/Evidence/Laws.antt =====
-- What `Sanitize` keeps, and what a kept record is worth.
use mathlib.Core.Path.{subst}
use codex_prompt_better.Base.{
  ℕ, ◌+◌, ◌≡◌, refl, sym, ap, ◌∙◌, Bool, String, true, false, if◌then◌else◌, map, keep, not, ◌&&◌,
  ◌||◌, ltb, List, [], ◌∷◌, Option, none, some, ◌⊎◌, inl, inr, ok, >>=-eq-ok, ok-injective,
  if-cases, if-eq-ok, All, length, arith,
}
use codex_prompt_better.Base.Text.{str_lt}
use codex_prompt_better.Base.Sorting.{sort}
use codex_prompt_better.Base.Patterns.{Unicode}
use codex_prompt_better.Evidence.Tables.{allowed}
use codex_prompt_better.Evidence.Sensitive.{
  sensitive_key, secret_like, keyed_attribute, blank, safe_metadata_value, alias_domain,
}
use codex_prompt_better.Evidence.Record.{Attributes, sensitive, short_key, opaque_id, framed}
use codex_prompt_better.Evidence.Sanitize.{
  Sorted, put, keyed_value, sanitize_field, sanitize_each, sanitize,
}

module _ (unicode : Unicode) (mac : List ℕ → String → String) (kind : String) (key : List ℕ) where
  -- A value that a keyed field may have: nothing, or the keyed text of what stood there.
  abbrev pub IsAlias : String → String → Type 0
  IsAlias field value =
      (value ≡ "")
      ⊎ ((raw : String) × (value ≡ mac key (framed (alias_domain kind field ∷ raw ∷ []))))

  -- An entry that may be kept.
  abbrev pub IsClean : String × String → Type 0
  IsClean (field, value) =
      (allowed kind field ≡ true)
      × (sensitive_key unicode field ≡ false)
      × (keyed_attribute field ≡ true → IsAlias field value)
      × (keyed_attribute field ≡ false
          → (safe_metadata_value unicode value ≡ true) × (secret_like unicode value ≡ false))

  -- The two outcomes of one entry.
  abbrev IsKept : String → Option String → Type 0
  IsKept field none = (allowed kind field && not (sensitive_key unicode field)) ≡ false
  IsKept field (some value) = IsClean (field, value)

  keyed_value-IsAlias :
      (field value : String) (kept : Option String)
      → keyed_value unicode mac kind key field value ≡ ok kept
      → (v : String) × (some v ≡ kept) × IsAlias field v
  unfolding keyed_value opaque_id
  keyed_value-IsAlias field value kept e = elim (if-cases (blank unicode value) e) [
    | inl (_, same) ↦ ("", ok-injective same, inl refl)
    | inr (_, e1) ↦
        let opaque = opaque_id mac key (alias_domain kind field ∷ value ∷ []) in
        let (o, made, same) = >>=-eq-ok opaque _ e1 in
        let (_, is) = if-eq-ok (ltb (length key) 32) short_key _ made in
        (o, ok-injective same, inr (value, sym (ok-injective is)))
  ]

  sanitize_field-IsKept :
      (field value : String) (kept : Option String)
      → sanitize_field unicode mac kind key field value ≡ ok kept
      → IsKept field kept
  unfolding sanitize_field
  sanitize_field-IsKept field value kept e =
      elim (if-cases (not (allowed kind field) || sensitive_key unicode field) e) [
        | inl (t, same) ↦ subst (IsKept field) (ok-injective same) (ground arith)
        | inr (f, e1) ↦
            let (s, e2) = if-eq-ok (secret_like unicode value) sensitive _ e1 in
            elim (if-cases (keyed_attribute field) e2) [
              | inl (k, e3) ↦
                  let (v, same, alias) = keyed_value-IsAlias field value kept e3 in
                  subst (IsKept field) same
                    (ground arith, ground arith, (λ _. alias), λ x. absurd cc)
              | inr (k, e3) ↦
                  let (m, same) =
                    if-eq-ok (not (safe_metadata_value unicode value)) sensitive _ e3 in
                  subst (IsKept field) (ok-injective same)
                    (ground arith, ground arith, (λ x. absurd cc), λ _. (ground arith, s))
            ]
      ]

  -- What the loop gives: entries that may be kept, fields that may not, and one for each entry.
  abbrev IsSorted : Attributes → Sorted → Type 0
  IsSorted attributes (clean, redacted) =
      All IsClean clean
      × All (λ f. (allowed kind f && not (sensitive_key unicode f)) ≡ false) redacted
      × (length clean + length redacted ≡ length attributes)

  put-IsSorted :
      (field value : String) (attributes : Attributes) (kept : Option String) (rest : Sorted)
      → IsKept field kept
      → IsSorted attributes rest
      → IsSorted ((field, value) ∷ attributes) (put field kept rest)
  put-IsSorted field value attributes none rest k (a, b, c) = (a, (k, b), omega (arith, c))
  put-IsSorted field value attributes (some v) rest k (a, b, c) = ((k, a), b, omega (arith, c))

  sanitize_each-IsSorted :
      (attributes : Attributes) (both : Sorted)
      → sanitize_each unicode mac kind key attributes ≡ ok both
      → IsSorted attributes both
  unfolding sanitize_each
  sanitize_each-IsSorted [] both e = subst (IsSorted []) (ok-injective e) (tt, tt, refl)
  sanitize_each-IsSorted ((field, value) ∷ attributes) both e =
      let (kept, e1, e2) = >>=-eq-ok (sanitize_field unicode mac kind key field value) _ e in
      let (rest, e3, same) = >>=-eq-ok (sanitize_each unicode mac kind key attributes) _ e2 in
      subst (IsSorted ((field, value) ∷ attributes)) (ok-injective same) (
        put-IsSorted field value attributes kept rest (sanitize_field-IsKept field value kept e1)
          (sanitize_each-IsSorted attributes rest e3))

  -- The fields that a source may hand on.
  abbrev pub may_keep : String × String → Bool
  may_keep (field, value) = allowed kind field && not (sensitive_key unicode field)

  -- What is kept of such an entry: the keyed text of its own value in the field's domain, if the field
  -- is keyed, and the value itself otherwise.
  abbrev pub disclosed : String × String → String × String
  disclosed (field, value) =
      if keyed_attribute field
      then if blank unicode value
        then (field, "")
        else (field, mac key (framed (alias_domain kind field ∷ value ∷ [])))
      else (field, value)

  abbrev pub field_of : String × String → String
  field_of (field, value) = field

  -- The two outcomes of one entry, by its own value.
  abbrev IsDisclosed : String → String → Option String → Type 0
  IsDisclosed field value none = may_keep (field, value) ≡ false
  IsDisclosed field value (some v) =
      (may_keep (field, value) ≡ true)
      × (disclosed (field, value) ≡ (field, v))
      × (secret_like unicode value ≡ false)

  keyed_value-IsDisclosed :
      (field value : String) (kept : Option String)
      → may_keep (field, value) ≡ true
      → secret_like unicode value ≡ false
      → keyed_attribute field ≡ true
      → keyed_value unicode mac kind key field value ≡ ok kept
      → IsDisclosed field value kept
  unfolding keyed_value opaque_id
  keyed_value-IsDisclosed field value kept m s k e = elim (if-cases (blank unicode value) e) [
    | inl (b, same) ↦ subst (IsDisclosed field value) (ok-injective same) (m, rw (k, b) refl, s)
    | inr (b, e1) ↦
        let opaque = opaque_id mac key (alias_domain kind field ∷ value ∷ []) in
        let (o, made, same) = >>=-eq-ok opaque _ e1 in
        let (_, is) = if-eq-ok (ltb (length key) 32) short_key _ made in
        subst (IsDisclosed field value) (ok-injective same)
          (m, rw (k, b) (ap (λ v. (field, v)) (ok-injective is)), s)
  ]

  sanitize_field-IsDisclosed :
      (field value : String) (kept : Option String)
      → sanitize_field unicode mac kind key field value ≡ ok kept
      → IsDisclosed field value kept
  unfolding sanitize_field
  sanitize_field-IsDisclosed field value kept e =
      elim (if-cases (not (allowed kind field) || sensitive_key unicode field) e) [
        | inl (t, same) ↦ subst (IsDisclosed field value) (ok-injective same) (ground arith)
        | inr (f, e1) ↦
            let (s, e2) = if-eq-ok (secret_like unicode value) sensitive _ e1 in
            let m : may_keep (field, value) ≡ true = ground arith in
            elim (if-cases (keyed_attribute field) e2) [
              | inl (k, e3) ↦ keyed_value-IsDisclosed field value kept m s k e3
              | inr (k, e3) ↦
                  let (_, same) =
                    if-eq-ok (not (safe_metadata_value unicode value)) sensitive _ e3 in
                  subst (IsDisclosed field value) (ok-injective same) (m, rw k refl, s)
            ]
      ]

  -- What becomes of all entries, in their order.
  abbrev IsPlaced : Attributes → Sorted → Type 0
  IsPlaced attributes (clean, redacted) =
      (clean ≡ map disclosed (keep may_keep attributes))
      × (redacted ≡ map field_of (keep (λ a. not (may_keep a)) attributes))
      × All (λ a. secret_like unicode a.1 ≡ false) (keep may_keep attributes)

  put-IsPlaced :
      (field value : String) (attributes : Attributes) (kept : Option String) (rest : Sorted)
      → IsDisclosed field value kept
      → IsPlaced attributes rest
      → IsPlaced ((field, value) ∷ attributes) (put field kept rest)
  put-IsPlaced field value attributes none rest d (a, b, c) = rw d (a, ap (λ fs. field ∷ fs) b, c)
  put-IsPlaced field value attributes (some v) rest d (a, b, c) =
      rw (d.0)
        (ap (λ x. x ∷ rest.0) (sym (d.1)) ∙ ap (λ xs. disclosed (field, value) ∷ xs) a, b, (d.2, c))

  sanitize_each-IsPlaced :
      (attributes : Attributes) (both : Sorted)
      → sanitize_each unicode mac kind key attributes ≡ ok both
      → IsPlaced attributes both
  unfolding sanitize_each
  sanitize_each-IsPlaced [] both e = subst (IsPlaced []) (ok-injective e) (refl, refl, tt)
  sanitize_each-IsPlaced ((field, value) ∷ attributes) both e =
      let (kept, e1, e2) = >>=-eq-ok (sanitize_field unicode mac kind key field value) _ e in
      let (rest, e3, same) = >>=-eq-ok (sanitize_each unicode mac kind key attributes) _ e2 in
      subst (IsPlaced ((field, value) ∷ attributes)) (ok-injective same) (
        put-IsPlaced field value attributes kept rest
          (sanitize_field-IsDisclosed field value kept e1)
          (sanitize_each-IsPlaced attributes rest e3))

  -- If the attributes of a source are sanitised, then exactly the entries of allowed fields with
  -- insensitive names are kept, in their order, and the names of all others are redacted, in the order
  -- of texts. No kept entry had a value like a secret; its value is, for a keyed field, empty if it
  -- was blank and else its keyed text in the field's domain, and otherwise unchanged, and then short
  -- and of safe characters.
  pub sanitize-IsSorted :
      (attributes clean : Attributes) (redacted : List String)
      → sanitize unicode mac kind key attributes ≡ ok (clean, redacted)
      → All IsClean clean
        × (clean ≡ map disclosed (keep may_keep attributes))
        × (redacted ≡ sort str_lt (map field_of (keep (λ a. not (may_keep a)) attributes)))
        × All (λ a. secret_like unicode a.1 ≡ false) (keep may_keep attributes)
  unfolding sanitize
  sanitize-IsSorted attributes clean redacted e =
      let ((c, r), e1, same) = >>=-eq-ok (sanitize_each unicode mac kind key attributes) _ e in
      let (a, b, n) = sanitize_each-IsSorted attributes (c, r) e1 in
      let (kept, names, safe) = sanitize_each-IsPlaced attributes (c, r) e1 in
      subst
        (λ (both : Sorted).
          All IsClean both.0
          × (both.0 ≡ map disclosed (keep may_keep attributes))
          × (both.1 ≡ sort str_lt (map field_of (keep (λ a. not (may_keep a)) attributes)))
          × All (λ a. secret_like unicode a.1 ≡ false) (keep may_keep attributes))
        (ok-injective same) (a, kept, ap (sort str_lt) names, safe)
