-- ===== src/Boundary/Discovery/Steps.antt =====
-- What one visit of the callback may change.
use Prim.Native.Char.{Char}
use Prim.Native.String.{len, ◌++◌ as append}
use codex_prompt_better.Base.{
  ℕ, ◌+◌, ◌≤◌, ◌≡◌, refl, ◌∙◌, inl, inr, String, not, ◌&&◌, ◌||◌, if◌then◌else◌, str_eq, ltb,
  length, length-append, List, [], ◌∷◌, some_of, All, All-append, Option, some, Result, ok, err,
  Bool-cases, Option-cases, arith,
}
use codex_prompt_better.Base.Floats.{Floats, Arithmetic}
use codex_prompt_better.Base.Patterns.{to_lower, str_contains}
use codex_prompt_better.Boundary.Paths.{
  PathLibrary, instruction_file, targeted_file, applies_to_scope, file_category, path_depth,
  mentions_scope,
}
use codex_prompt_better.Boundary.Resolution.{Candidate}
use codex_prompt_better.Boundary.Discovery.{
  Entry, WalkError, Control, State, Reader, no_facts, set_fact, add, add_instruction, visit_file,
  visit_dir, visit_clean,
}

module _ (floats : Floats) (arithmetic : Arithmetic floats) (paths : PathLibrary)
    (lower : Char → Char) where
  -- A candidate is its own source, states its category and its kind of source, and has no conflicts
  -- yet.
  abbrev pub IsLabelled : Candidate floats → Type 0
  IsLabelled c =
      (c.facts "category" ≡ some c.category)
      × (c.facts "source_kind" ≡ some c.source_kind)
      × (c.source_ref ≡ c.id)
      × (c.conflicts ≡ [])

  -- At most `n` candidates more, and nothing else.
  abbrev pub Extends : ℕ → State floats → State floats → Type 0
  Extends n s t =
      (t.metadata_entries ≡ s.metadata_entries)
      × (t.targeted_reads ≡ s.targeted_reads)
      × (length t.candidates ≤ length s.candidates + n)
      × (All IsLabelled s.candidates → All IsLabelled t.candidates)

  pub add-Extends :
      (category kind key : String) (confidence : floats.F) (specificity : ℕ)
      (facts : String → Option String) (s : State floats)
      → Extends 1 s
          (add floats arithmetic paths lower category kind key confidence specificity facts s)
  unfolding add
  add-Extends category kind key confidence specificity facts s =
      elim (Bool-cases
        (some_of (λ (p : String × String). str_eq p.0 category && str_eq p.1 key) s.seen)) [
          | inl e ↦ rw (add, e) (refl, refl, omega arith, λ h. h)
          | inr e ↦
              rw (add, e)
                (
                  refl,
                  refl,
                  omega (arith, length-append s.candidates (_ ∷ [])),
                  λ h. All-append IsLabelled s.candidates (_ ∷ []) h ((refl, refl, refl, refl), tt),
                )
        ]

  pub Extends-trans :
      (m n : ℕ) (s t u : State floats) → Extends m s t → Extends n t u → Extends (m + n) s u
  Extends-trans m n s t u h k =
      (k.0 ∙ h.0, k.1 ∙ h.1, omega (arith, h.2, k.2), λ labelled. k.3 (h.3 labelled))

  add_instruction-Extends :
      (scopes : List String) (clean content : String) (s : State floats)
      → Extends 2 s (add_instruction floats arithmetic paths lower scopes clean content s)
  unfolding add_instruction
  add_instruction-Extends scopes clean content s =
      let lowered = to_lower lower content in
      let known =
        add floats arithmetic paths lower "instruction" "instruction" clean
          (arithmetic.hundredths 100) (path_depth clean) no_facts s in
      let first =
        add-Extends "instruction" "instruction" clean (arithmetic.hundredths 100) (path_depth clean)
          no_facts s in
      let facts =
        if mentions_scope lower lowered scopes
        then set_fact "conflicted" "true" no_facts
        else no_facts in
      let second =
        add-Extends "non_goal" "instruction" (append clean ":non-goal") (arithmetic.hundredths 90)
          (path_depth clean) facts known in
      elim (Bool-cases (str_contains lowered "non-goal" || str_contains lowered "out of scope")) [
        | inl e ↦
            rw (add_instruction, e)
              (
                second.0 ∙ first.0,
                second.1 ∙ first.1,
                omega (arith, first.2, second.2),
                λ labelled. second.3 (first.3 labelled),
              )
        | inr e ↦ rw (add_instruction, e) (first.0, first.1, omega (arith, first.2), first.3)
      ]

  -- What a visit may do: read once and add five candidates.
  abbrev pub Advances : State floats → Result WalkError (State floats × Control) → Type 0
  Advances s (err e) = Unit
  Advances s (ok (t, control)) =
      (t.metadata_entries ≡ s.metadata_entries)
      × (t.targeted_reads ≤ s.targeted_reads + 1)
      × (length t.candidates ≤ length s.candidates + 5)
      × (All IsLabelled s.candidates → All IsLabelled t.candidates)

  Extends-Advances :
      (n : ℕ) (s t : State floats) (control : Control)
      → n ≤ 5
      → Extends n s t
      → Advances s (ok (t, control))
  Extends-Advances n s t control h e = (e.0, omega (arith, e.1), omega (arith, e.2), e.3)

  visit_file-Advances :
      (reader : Reader floats) (scopes : List String) (clean base : String) (s t : State floats)
      → Extends 2 s t
      → Advances s (visit_file floats arithmetic paths lower reader scopes clean base t)
  unfolding visit_file
  visit_file-Advances reader scopes clean base s t h =
      let known =
        add floats arithmetic paths lower (file_category clean base) "repository_metadata" clean
          (arithmetic.hundredths 100) (path_depth clean) no_facts t in
      let more =
        add-Extends (file_category clean base) "repository_metadata" clean
          (arithmetic.hundredths 100) (path_depth clean) no_facts t in
      let reading = record known { targeted_reads = known.targeted_reads + 1 } in
      elim (Bool-cases (not (targeted_file clean base))) [
        | inl e ↦ rw (visit_file, e) (Extends-Advances 2 s t Control.go_on (omega arith) h)
        | inr e ↦
            elim (Bool-cases (not (instruction_file base && applies_to_scope paths clean scopes))) [
              | inl k ↦
                  rw (visit_file, e, k)
                    (Extends-Advances 3 s known Control.go_on (omega arith)
                      (Extends-trans 2 1 s t known h more))
              | inr k ↦ elim (Option-cases (reader.read_file clean)) [
                | inl r ↦ rw (visit_file, e, k, r) tt
                | inr (content, r) ↦ elim (Bool-cases (ltb 65536 (len content))) [
                  | inl l ↦ rw (visit_file, e, k, r, l) tt
                  | inr l ↦
                      let last = add_instruction-Extends scopes clean content reading in
                      rw (visit_file, e, k, r, l)
                        (
                          last.0 ∙ more.0 ∙ h.0,
                          omega (arith, last.1, more.1, h.1),
                          omega (arith, last.2, more.2, h.2),
                          λ labelled. last.3 (more.3 (h.3 labelled)),
                        )
                ]
              ]
            ]
      ]

  visit_dir-Advances :
      (clean base : String) (s : State floats)
      → Advances s (ok (visit_dir floats arithmetic paths lower clean base s))
  unfolding visit_dir
  visit_dir-Advances clean base s =
      let one = arithmetic.hundredths 100 in
      let vendor =
        add-Extends "vendor" "repository_metadata" clean one (path_depth clean) no_facts s in
      let generated =
        add-Extends "generated" "repository_metadata" clean (arithmetic.hundredths 90)
          (path_depth clean) no_facts s in
      elim (Bool-cases (some_of (str_eq base) ("vendor" ∷ "node_modules" ∷ "third_party" ∷ []))) [
        | inl e ↦
            rw (visit_dir, e) (vendor.0, omega (arith, vendor.1), omega (arith, vendor.2), vendor.3)
        | inr e ↦ elim (Bool-cases (some_of (str_eq base) ("generated" ∷ "dist" ∷ "build" ∷ []))) [
          | inl k ↦
              rw (visit_dir, e, k)
                (generated.0, omega (arith, generated.1), omega (arith, generated.2), generated.3)
          | inr k ↦ rw (visit_dir, e, k) (refl, omega arith, omega arith, λ h. h)
        ]
      ]

  pub visit_clean-Advances :
      (reader : Reader floats) (scopes : List String) (entry : Entry) (clean : String)
      (s : State floats)
      → Advances s (visit_clean floats arithmetic paths lower reader scopes entry clean s)
  unfolding visit_clean visit_dir
  visit_clean-Advances reader scopes entry clean s =
      let base = to_lower lower (paths.base clean) in
      let found =
        λ (category key : String) (confidence : floats.F) (facts : String → Option String)
            (t : State floats).
          add-Extends category "repository_metadata" key confidence (path_depth clean) facts t in
      let one = arithmetic.hundredths 100 in
      let repository =
        add floats arithmetic paths lower "repository" "repository_metadata"
          (append clean ":repository") one (path_depth clean) no_facts s in
      let worktree =
        add floats arithmetic paths lower "worktree" "repository_metadata"
          (append clean ":worktree") one (path_depth clean) no_facts repository in
      let link =
        add floats arithmetic paths lower "security" "repository_metadata" (append clean ":symlink")
          one (path_depth clean) (set_fact "ambiguous" "true" no_facts) s in
      let away = if entry.is_dir then Control.skip_dir else Control.go_on in
      let same : Extends 0 s s = (refl, refl, omega arith, λ h. h) in
      let first = found "repository" (append clean ":repository") one no_facts s in
      let both =
        Extends-trans 1 1 s repository worktree first
          (found "worktree" (append clean ":worktree") one no_facts repository) in
      elim (Bool-cases (reader.is_ignored clean)) [
        | inl e ↦ rw (visit_clean, e) (Extends-Advances 0 s s away (omega arith) same)
        | inr e ↦ elim (Bool-cases entry.is_symlink) [
          | inl k ↦
              rw (visit_clean, e, k)
                (Extends-Advances 1 s link away (omega arith) (
                  found "security" (append clean ":symlink") one
                    (set_fact "ambiguous" "true" no_facts) s))
          | inr k ↦ elim (Bool-cases (str_eq base ".git")) [
            | inl g ↦ elim (Bool-cases entry.is_dir) [
              | inl d ↦
                  rw (visit_clean, e, k, g, d)
                    (Extends-Advances 1 s repository Control.skip_dir (omega arith) first)
              | inr d ↦
                  rw (visit_clean, e, k, g, d)
                    (visit_file-Advances reader scopes clean base s worktree both)
            ]
            | inr g ↦ elim (Bool-cases entry.is_dir) [
              | inl d ↦ rw (visit_clean, e, k, g, d) (visit_dir-Advances clean base s)
              | inr d ↦
                  rw (visit_clean, e, k, g, d)
                    (visit_file-Advances reader scopes clean base s s
                      (refl, refl, omega arith, λ h. h))
            ]
          ]
        ]
      ]
