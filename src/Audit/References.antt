-- ===== src/Audit/References.antt =====
-- `mergeRefs`, `guardrailsPass` and `qualityGateState`.
use codex_prompt_better.Base.{
  ℕ, ◌+◌, ◌≤◌, ◌<◌, ◌≡◌, refl, ◌∙◌, String, Bool, true, false, not, ◌&&◌, if◌then◌else◌, Bool-cases,
  inl, inr, str_eq, eq_iff, ltb, List, [], ◌∷◌, ◌++◌, length, length-append, each_of, some_of,
  tally, tally-append, some_of-tally, arith,
}
use mathlib.Core.Path.{subst}
use codex_prompt_better.Base.Text.{str_lt}
use codex_prompt_better.Base.Sorting.{sort, tally-sort, length-sort}

-- `seen` has exactly what `result` has.
abbrev pub is_taken : List String → String → Bool
is_taken result value =
    not (str_eq value "") && not (some_of (λ r. str_eq r value) result) && ltb (length result) 100

unfoldable pub merge_group : List String → List String → List String
merge_group result [] = result
merge_group result (value ∷ values) =
    merge_group (if is_taken result value then result ++ value ∷ [] else result) values

unfoldable pub merge_groups : List String → List (List String) → List String
unfolding merge_group
merge_groups result [] = result
merge_groups result (group ∷ groups) = merge_groups (merge_group result group) groups

unfoldable pub merge_refs : List (List String) → List String
unfolding merge_groups sort
merge_refs groups = sort str_lt (merge_groups [] groups)

-- At most a hundred references, none twice and none empty.
abbrev pub IsMerged : List String → Type 0
IsMerged refs =
    (length refs ≤ 100)
    × ((name : String) → tally (λ r. str_eq r name) refs ≤ 1)
    × (tally (λ r. str_eq r "") refs ≡ 0)

tally-one :
    (result : List String) (value name : String) (n : ℕ)
    → (if str_eq value name then 1 else 0) ≡ n
    → tally (λ r. str_eq r name) (result ++ value ∷ []) ≡ tally (λ r. str_eq r name) result + n
tally-one result value name n e =
    tally-append (λ r. str_eq r name) result (value ∷ []) ∙ omega (arith, e)

take-IsMerged :
    (result : List String) (value : String)
    → is_taken result value ≡ true
    → IsMerged result
    → IsMerged (result ++ value ∷ [])
take-IsMerged result value t (l, once, none) =
    let fresh : tally (λ r. str_eq r value) result ≡ 0 =
      ground (arith, some_of-tally (λ r. str_eq r value) result) in
    let named : str_eq value "" ≡ false = ground arith in
    let room : length result < 100 = ground arith in
    (
      omega (arith, length-append result (value ∷ []), room),
      (λ name. elim (Bool-cases (str_eq value name)) [
        | inl b ↦
            let zero_of : tally (λ r. str_eq r name) result ≡ 0 =
              subst (λ n. tally (λ r. str_eq r n) result ≡ 0) ((eq_iff value name).0 b) fresh in
            omega (arith, tally-one result value name 1 (rw b refl), zero_of)
        | inr b ↦ omega (arith, tally-one result value name 0 (rw b refl), once name)
      ]),
      omega (arith, tally-one result value "" 0 (rw named refl), none),
    )

merge_group-IsMerged :
    (result values : List String) → IsMerged result → IsMerged (merge_group result values)
unfolding merge_group
merge_group-IsMerged result [] m = m
merge_group-IsMerged result (value ∷ values) m = elim (Bool-cases (is_taken result value)) [
  | inl t ↦
      rw t (merge_group-IsMerged (result ++ value ∷ []) values (take-IsMerged result value t m))
  | inr f ↦ rw f (merge_group-IsMerged result values m)
]

merge_groups-IsMerged :
    (result : List String) (groups : List (List String))
    → IsMerged result
    → IsMerged (merge_groups result groups)
unfolding merge_groups
merge_groups-IsMerged result [] m = m
merge_groups-IsMerged result (group ∷ groups) m =
    merge_groups-IsMerged (merge_group result group) groups (merge_group-IsMerged result group m)

-- Merged references are at most a hundred, none of them stands twice, and none is empty.
pub merge_refs-IsMerged : (groups : List (List String)) → IsMerged (merge_refs groups)
unfolding merge_refs
merge_refs-IsMerged groups =
    let merged = merge_groups [] groups in
    let (l, once, none) =
      merge_groups-IsMerged [] groups (omega arith, (λ name. omega arith), refl) in
    (
      omega (arith, length-sort str_lt merged, l),
      (λ name. omega (arith, tally-sort str_lt (λ r. str_eq r name) merged, once name)),
      tally-sort str_lt (λ r. str_eq r "") merged ∙ none,
    )

-- The states of the guardrails.
unfoldable pub guardrails_pass : List String → Bool
guardrails_pass states =
    if ltb 0 (length states) then each_of (λ s. str_eq s "pass") states else false

unfoldable pub gate_loop : String → List String → String
gate_loop state [] = state
gate_loop state (s ∷ states) =
    let rest = gate_loop (if str_eq s "pass" then state else "unknown") states in
    if str_eq s "fail" then "fail" else rest

unfoldable pub quality_gate_state : List String → String
unfolding gate_loop
quality_gate_state [] = "unknown"
quality_gate_state (s ∷ states) = gate_loop "pass" (s ∷ states)
