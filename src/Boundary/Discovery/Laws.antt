-- ===== src/Boundary/Discovery/Laws.antt =====
-- What a discovery reads, and how much of it there is.
use Prim.Native.Char.{Char}
use mathlib.Core.Path.{fun_ext}
use codex_prompt_better.Base.{
  ◌≡◌, refl, inl, inr, String, Bool, true, false, str_eq, List, Option, some, none, Bool-cases,
  Result-cases,
}
use codex_prompt_better.Base.Floats.{Floats, Arithmetic}
use codex_prompt_better.Base.Patterns.{to_lower}
use codex_prompt_better.Boundary.Paths.{PathLibrary, instruction_file, normalize_scopes}
use codex_prompt_better.Boundary.Discovery.{
  Entry, State, Reader, visit_file, visit_clean, visit, Walk, discover,
}

module _ (floats : Floats) (arithmetic : Arithmetic floats) (paths : PathLibrary)
    (lower : Char → Char) where
  module _ (reader : Reader floats) (read : String → Option String) where
    abbrev other : Reader floats
    other = record reader { read_file = read }

    visit_file-reads :
        (scopes : List String) (clean base : String) (s : State floats)
        → (instruction_file base ≡ true → reader.read_file clean ≡ read clean)
        → visit_file floats arithmetic paths lower reader scopes clean base s
          ≡ visit_file floats arithmetic paths lower other scopes clean base s
    unfolding visit_file
    visit_file-reads scopes clean base s same = elim (Bool-cases (instruction_file base)) [
      | inl e ↦ rw (same e) refl
      | inr e ↦ rw e refl
    ]

    -- The two answer alike on the files of instructions.
    abbrev pub Agrees : Type 0
    Agrees =
        (clean : String)
        → instruction_file (to_lower lower (paths.base clean)) ≡ true
        → reader.read_file clean ≡ read clean

    visit_clean-reads :
        (scopes : List String) (entry : Entry) (clean : String) (s : State floats)
        → Agrees
        → visit_clean floats arithmetic paths lower reader scopes entry clean s
          ≡ visit_clean floats arithmetic paths lower other scopes entry clean s
    unfolding visit_clean
    visit_clean-reads scopes entry clean s agrees =
        let base = to_lower lower (paths.base clean) in
        let file = λ (t : State floats). visit_file-reads scopes clean base t (agrees clean) in
        elim (Bool-cases (reader.is_ignored clean)) [
          | inl e ↦ rw (visit_clean, e) refl
          | inr e ↦ elim (Bool-cases entry.is_symlink) [
            | inl k ↦ rw (visit_clean, e, k) refl
            | inr k ↦ elim (Bool-cases (str_eq base ".git")) [
              | inl g ↦ elim (Bool-cases entry.is_dir) [
                | inl d ↦ rw (visit_clean, e, k, g, d) refl
                | inr d ↦ rw (visit_clean, e, k, g, d) (file _)
              ]
              | inr g ↦ elim (Bool-cases entry.is_dir) [
                | inl d ↦ rw (visit_clean, e, k, g, d) refl
                | inr d ↦ rw (visit_clean, e, k, g, d) (file s)
              ]
            ]
          ]
        ]

    visit-reads :
        (scopes : List String) (entry : Entry) (s : State floats)
        → Agrees
        → visit floats arithmetic paths lower reader scopes entry s
          ≡ visit floats arithmetic paths lower other scopes entry s
    unfolding visit
    visit-reads scopes entry s agrees = rw (visit, visit_clean-reads scopes entry _ _ agrees) refl

    -- A discovery depends on no file's content but that of the files of instructions: whatever the
    -- walk does, readers that agree on these give the same result or the same error.
    pub discover-reads :
        (walk : Walk floats arithmetic paths lower) (root : Option Bool) (scopes : List String)
        → Agrees
        → discover floats arithmetic paths lower walk reader root scopes
          ≡ discover floats arithmetic paths lower walk other root scopes
    unfolding discover
    discover-reads walk none scopes agrees = refl
    discover-reads walk (some false) scopes agrees = refl
    discover-reads walk (some true) scopes agrees =
        elim (Result-cases (normalize_scopes paths scopes)) [
          | inl (e, n) ↦ rw (discover, n) refl
          | inr (normalized, n) ↦
              let same : visit floats arithmetic paths lower reader normalized
                  ≡ visit floats arithmetic paths lower other normalized =
                fun_ext (λ entry. fun_ext (λ s. visit-reads normalized entry s agrees)) in
              rw (discover, n, same) refl
        ]
