-- ===== src/Tests/Discovery.antt =====
-- A walk over four entries, among them credentials and instructions.
use codex_prompt_better.Base.{
  ◌≡◌, refl, String, true, false, if◌then◌else◌, str_eq, List, [], ◌∷◌, map, length, some_of, All,
  Option, none, some, Result, ok, err, ◌>>=◌, ok-injective, Result-cases, Bool-cases, eq_iff, inl,
  inr,
}
use codex_prompt_better.Base.Patterns.{to_lower, has_prefix}
use codex_prompt_better.Contracts.{Error}
use codex_prompt_better.Boundary.Paths.{
  PathLibrary, instruction_file, clean_scope, normalize_scopes,
}
use codex_prompt_better.Boundary.Paths.Laws.{IsInside, times, normalize_scopes-times}
use codex_prompt_better.Boundary.Discovery.{Entry, WalkError, Control, State, Reader, discover}
use codex_prompt_better.Boundary.Discovery.Laws.{discover-reads}
use codex_prompt_better.Boundary.Discovery.Bounds.{Reached, IsCounted, discover-bounds}
use codex_prompt_better.Tests.FixedPoint.{fixed, fixed_arithmetic}
use Prim.Native.Char.{Char}
use mathlib.Core.Path.{subst}

-- Names without a folder.
abbrev flat_paths : PathLibrary
flat_paths = record {
  clean = λ s. s;
  base = λ s. s;
  dir = λ s. ".";
  is_abs = λ s. has_prefix s "/";
}

abbrev same : Char → Char
same c = c

abbrev Step : Type 0
Step = Entry → State fixed → Result WalkError (State fixed × Control)

-- A walk without folders.
abbrev go : List Entry → Step → State fixed → Result WalkError (State fixed)
go [] step s = ok s
go (e ∷ es) step s = step e s >>= λ p. go es step p.0

go-Reached :
    (es : List Entry) (step : Step) (s t u : State fixed)
    → Reached fixed fixed_arithmetic flat_paths same step s t
    → go es step t ≡ ok u
    → Reached fixed fixed_arithmetic flat_paths same step s u
go-Reached [] step s t u before h =
    subst (Reached fixed fixed_arithmetic flat_paths same step s) (ok-injective h) before
go-Reached (e ∷ es) step s t u before h = elim (Result-cases (step e t)) [
  | inl (x, k) ↦ let failed = rw k at h in cc
  | inr ((v, control), k) ↦
      go-Reached es step s v u (Reached.then_visit t v e control before k) (rw k at h)
]

abbrev entry : String → Entry
entry name = record {
  name = name;
  is_dir = false;
  is_symlink = false;
  failed = false;
  cancelled = false;
}

abbrev entries : List Entry
entries =
    entry "agents.md"
    ∷ entry "credentials.json"
    ∷ record (entry "vendor") { is_dir = true }
    ∷ entry "notes.txt"
    ∷ []

abbrev reader : Reader fixed
reader = record {
  read_file = λ name.
      if str_eq name "agents.md"
      then some "src is out of scope"
      else if str_eq name "credentials.json"
      then some "x"
      else none;
  is_ignored = λ name. false;
}

abbrev blind : String → Option String
blind name = if str_eq name "agents.md" then some "src is out of scope" else none

abbrev found : Result Error (State fixed)
found =
    discover fixed fixed_arithmetic flat_paths same (go entries) reader (some true)
      ("src" ∷ "src" ∷ [])

found-run :
    (found >>= λ s. ok (map {B = String × List String} (λ c. (c.id, c.conflicts)) s.candidates))
    ≡ ok (
        ("instruction.0001", [])
        ∷ ("non_goal.0001", "scope.0001" ∷ [])
        ∷ ("privacy.0001", [])
        ∷ ("scope.0001", "non_goal.0001" ∷ [])
        ∷ ("vendor.0001", [])
        ∷ [])
unfolding discover
found-run = refl

blind-Agrees :
    (clean : String)
    → instruction_file (to_lower same (flat_paths.base clean)) ≡ true
    → reader.read_file clean ≡ blind clean
unfolding to_lower
blind-Agrees clean h = elim (Bool-cases (str_eq clean "agents.md")) [
  | inl e ↦ rw e refl
  | inr e ↦ elim (Bool-cases (str_eq clean "credentials.json")) [
    | inl k ↦
        let refused =
          subst (λ c. instruction_file (to_lower same c) ≡ true)
            ((eq_iff clean "credentials.json").0 k) h in
        cc
    | inr k ↦ rw (e, k) refl
  ]
]

discover-reads_example :
    found
    ≡ discover fixed fixed_arithmetic flat_paths same
        (go entries)
        (record reader { read_file = blind })
        (some true)
        ("src" ∷ "src" ∷ [])
discover-reads_example =
    discover-reads fixed fixed_arithmetic flat_paths same reader blind (go entries) (some true)
      ("src" ∷ "src" ∷ []) blind-Agrees

normalize_scopes-times_example :
    All (IsInside flat_paths) ("src" ∷ [])
    × (times flat_paths "src" ("src" ∷ []) ≡ (
        if some_of (λ v. str_eq (clean_scope flat_paths v) "src") ("src" ∷ "src" ∷ [])
        then 1
        else 0))
unfolding normalize_scopes
normalize_scopes-times_example =
    normalize_scopes-times flat_paths ("src" ∷ "src" ∷ []) ("src" ∷ []) "src" refl

abbrev answer : Result Error (State fixed) → State fixed
answer (ok s) = s
answer (err e) = record { candidates = []; metadata_entries = 0; targeted_reads = 0; seen = [] }

discover-bounds_example :
    (scopes : List String) × (normalize_scopes flat_paths ("src" ∷ "src" ∷ []) ≡ ok scopes)
    × IsCounted fixed fixed_arithmetic flat_paths same (length scopes) (answer found)
unfolding discover
discover-bounds_example =
    discover-bounds fixed fixed_arithmetic flat_paths same (go entries) reader (some true)
      ("src" ∷ "src" ∷ []) (answer found)
      (λ step s t ended. go-Reached entries step s s t Reached.start ended) refl
