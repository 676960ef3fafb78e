-- ===== src/Prompt/Laws.antt =====
-- What the cap leaves of the diagnostics, and what an accepted prompt's diagnostics say.
use Prim.Native.String.{len}
use mathlib.Core.List.{append_assoc, append-nil}
use codex_prompt_better.Base.{
  ℕ, zero, suc, ◌≤◌, ◌<◌, min, ◌≡◌, refl, sym, ap, ◌∙◌, inl, inr, String, Bool, true, false, not,
  ◌||◌, ◌==◌, if◌then◌else◌, str_eq, ltb, leb, List, [], ◌∷◌, ◌++◌, keep, take, tally, some_of,
  some_of-tally, length, length-append, length-take, tally-le-length, Result, ok, err, Bool-cases,
  Result-cases, arith,
}
use codex_prompt_better.Base.Patterns.{Unicode}
use codex_prompt_better.Contracts.{Error, invalid_schema}
use codex_prompt_better.Prompt.Lines.{normalize}
use codex_prompt_better.Prompt.Lint.{
  Diagnostic, is_error, fill, cap_diagnostics, LintRequest, LintResult, diagnose, check_prompt,
}

module _ {ℓ} {A : Type ℓ} where
  take-append : (n : ℕ) (xs ys : List A) → n ≤ length xs → take n (xs ++ ys) ≡ take n xs
  take-append zero xs ys h = refl
  take-append (suc n) [] ys h = let impossible : ⊥ = omega arith in elim impossible [ ]
  take-append (suc n) (x ∷ xs) ys h = ap (λ zs. x ∷ zs) (take-append n xs ys (omega arith))

  take_all : (n : ℕ) (xs : List A) → length xs ≤ n → take n xs ≡ xs
  take_all zero [] h = refl
  take_all zero (x ∷ xs) h = let impossible : ⊥ = omega arith in elim impossible [ ]
  take_all (suc n) [] h = refl
  take_all (suc n) (x ∷ xs) h = ap (λ zs. x ∷ zs) (take_all n xs (omega arith))

  length-keep : (p : A → Bool) (xs : List A) → length (keep p xs) ≡ tally p xs
  length-keep p [] = refl
  length-keep p (x ∷ xs) = ground (arith, length-keep p xs)

  tally-keep-not : (p : A → Bool) (xs : List A) → tally p (keep (λ x. not (p x)) xs) ≡ 0
  tally-keep-not p [] = refl
  tally-keep-not p (x ∷ xs) = ground (arith, tally-keep-not p xs)

  tally-take_none : (p : A → Bool) (n : ℕ) (xs : List A) → tally p xs ≡ 0 → tally p (take n xs) ≡ 0
  tally-take_none p zero xs h = refl
  tally-take_none p (suc n) [] h = refl
  tally-take_none p (suc n) (x ∷ xs) h = ground (arith, tally-take_none p n xs)

  -- In front of what does not pass, as much of what passes is taken as fits.
  tally-take-keep :
      (p : A → Bool) (n : ℕ) (xs ys : List A)
      → tally p ys ≡ 0
      → tally p (take n (keep p xs ++ ys)) ≡ min n (tally p xs)
  tally-take-keep p zero xs ys h = omega arith
  tally-take-keep p (suc n) [] ys h = omega (arith, tally-take_none p (suc n) ys h)
  tally-take-keep p (suc n) (x ∷ xs) ys h = elim (Bool-cases (p x)) [
    | inl e ↦ rw e (rw e (omega (arith, tally-take-keep p n xs ys h)))
    | inr e ↦ rw e (omega (arith, tally-take-keep p (suc n) xs ys h))
  ]

fill-take :
    (p : Diagnostic → Bool) (limit : ℕ) (result ds : List Diagnostic)
    → length result < limit
    → fill p limit result ds ≡ take limit (result ++ keep p ds)
unfolding fill
fill-take p limit result [] h = rw (append-nil result) (sym (take_all limit result (omega arith)))
fill-take p limit result (d ∷ ds) h = elim (Bool-cases (p d)) [
  | inr e ↦ rw (fill, e) (fill-take p limit result ds h)
  | inl e ↦
      let longer = result ++ d ∷ [] in
      let l : length longer ≡ suc (length result) = omega (arith, length-append result (d ∷ [])) in
      let joined = append_assoc result (d ∷ []) (keep p ds) in
      elim (Bool-cases (length longer == limit)) [
        | inl k ↦
            rw (fill, e, k, sym joined)
              (sym (
                take-append limit longer (keep p ds) (ground arith)
                ∙ take_all limit longer (ground arith)))
        | inr k ↦ rw (fill, e, k, sym joined) (fill-take p limit longer ds (ground arith))
      ]
]

abbrev pub errors_first : List Diagnostic → List Diagnostic
errors_first ds = keep is_error ds ++ keep (λ d. not (is_error d)) ds

-- Within the limit nothing changes; beyond it the errors come first, and as much of the list as fits
-- is kept.
pub cap_diagnostics-take :
    (ds : List Diagnostic) (limit : ℕ)
    → 1 ≤ limit
    → cap_diagnostics ds limit
      ≡ (if leb (length ds) limit then ds else take limit (errors_first ds))
unfolding cap_diagnostics
cap_diagnostics-take ds limit h =
    let errors = keep is_error ds in
    let others = keep (λ d. not (is_error d)) ds in
    let first = fill-take is_error limit [] ds (omega arith) in
    elim (Bool-cases (leb (length ds) limit)) [
      | inl e ↦ rw (cap_diagnostics, e) refl
      | inr e ↦ elim (Bool-cases (leb limit (length errors))) [
        | inl full ↦
            let exact : (length (take limit errors) == limit) ≡ true =
              ground (arith, length-take limit errors) in
            rw (cap_diagnostics, e, first, exact)
              (sym (take-append limit errors others (ground arith)))
        | inr room ↦
            let all = take_all limit errors (ground arith) in
            let short : (length errors == limit) ≡ false = ground arith in
            rw (cap_diagnostics, e, first, all, short)
              (fill-take (λ d. not (is_error d)) limit errors ds (ground arith))
      ]
    ]

cap_diagnostics-bounds :
    (ds : List Diagnostic) (limit : ℕ)
    → 1 ≤ limit
    → (length (cap_diagnostics ds limit) ≤ limit)
      × (tally is_error (cap_diagnostics ds limit) ≡ min limit (tally is_error ds))
cap_diagnostics-bounds ds limit h =
    let capped = cap_diagnostics-take ds limit h in
    elim (Bool-cases (leb (length ds) limit)) [
      | inl e ↦ rw (capped, e) (ground arith, ground (arith, tally-le-length is_error ds))
      | inr e ↦
          rw (capped, e)
            (
              omega (arith, length-take limit (errors_first ds)),
              tally-take-keep is_error limit ds (keep (λ d. not (is_error d)) ds)
                  (tally-keep-not is_error ds),
            )
    ]

module _ (unicode : Unicode) (matches : String → String → Bool)
    (equal_fold : String → String → Bool) where
  -- What `CheckPrompt` may answer.
  abbrev pub IsChecked : (String → Bool) → LintRequest → Result Error LintResult → Type 0
  IsChecked is_valid request (err e) = e.code ≡ invalid_schema
  IsChecked is_valid request (ok r) =
      (candidate : String) × (normalize unicode is_valid request.candidate ≡ ok candidate)
      × (length r.diagnostics ≤ 100)
      × (tally is_error r.diagnostics
          ≡ min 100 (tally is_error (diagnose unicode matches equal_fold candidate)))
      × (r.valid ≡ not (some_of is_error r.diagnostics))

  normalize_refusal :
      (is_valid : String → Bool) (s : String) (e : Error)
      → normalize unicode is_valid s ≡ err e
      → e.code ≡ invalid_schema
  unfolding normalize
  normalize_refusal is_valid s e h = ground arith

  -- A refusal is about the schema. An accepted prompt is checked on its normalized text; at most 100
  -- diagnostics are returned, with as many of the errors that were found as fit, and the prompt is
  -- called valid exactly if the returned diagnostics have no error.
  pub check_prompt-IsChecked :
      (is_valid : String → Bool) (request : LintRequest)
      → IsChecked is_valid request (check_prompt unicode matches equal_fold is_valid request)
  unfolding check_prompt
  check_prompt-IsChecked is_valid request =
      elim (Bool-cases
        (not (str_eq request.schema_version "1.0.0") || not (str_eq request.kind "request"))) [
          | inl e ↦ rw (check_prompt, e) refl
          | inr e ↦ elim (Bool-cases (ltb 16000 (len request.candidate))) [
            | inl k ↦ rw (check_prompt, e, k) refl
            | inr k ↦ elim (Result-cases (normalize unicode is_valid request.candidate)) [
              | inl (refusal, n) ↦
                  rw (check_prompt, e, k, n)
                    (normalize_refusal is_valid request.candidate refusal n)
              | inr (candidate, n) ↦
                  let ds = diagnose unicode matches equal_fold candidate in
                  let (l, t) = cap_diagnostics-bounds ds 100 (omega arith) in
                  rw (check_prompt, e, k, n)
                    (
                      candidate,
                      n,
                      l,
                      t,
                      rw
                          (
                            some_of-tally is_error ds,
                            some_of-tally is_error (cap_diagnostics ds 100),
                            t,
                          )
                          (ground arith),
                    )
            ]
          ]
        ]
