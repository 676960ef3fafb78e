-- ===== src/Boundary/Discovery.antt =====
-- `Discover` of internal/boundary/discovery.go. The walk of the file system is a parameter that
-- visits entries one after the other; the state is what the callback changes.
pub mod Laws
pub mod Steps
pub mod Bounds
use Prim.Native.String.{len, ◌++◌ as append}
use Prim.Native.Char.{Char}
use codex_prompt_better.Base.{
  ℕ, suc, ◌+◌, String, Bool, true, false, not, ◌&&◌, ◌||◌, ◌==◌, if◌then◌else◌, str_eq, ltb, List,
  [], ◌∷◌, ◌++◌, some_of, tally, map, keep, Option, none, some, Result, ok, err, ◌>>=◌,
}
use codex_prompt_better.Base.Decimal.{format_uint}
use codex_prompt_better.Base.Floats.{Floats, Arithmetic}
use codex_prompt_better.Base.Sorting.{sort}
use codex_prompt_better.Base.Text.{str_lt}
use codex_prompt_better.Base.Patterns.{to_lower, str_contains, trim_prefix}
use codex_prompt_better.Contracts.{Error, new_error, budget_exhausted}
use codex_prompt_better.Boundary.Resolution.{Candidate}
use codex_prompt_better.Boundary.Paths.{
  PathLibrary, sanitized, forward_slashes, path_depth, instruction_file, targeted_file,
  file_category, mentions_scope, applies_to_scope, normalize_scopes,
}

-- An entry of the walk: its name, and whether it is a directory or a symbolic link. `failed` is an
-- error of the walk, and `cancelled` the context's at that moment.
pub record Entry : Type 0 where
  pub name : String
  pub is_dir : Bool
  pub is_symlink : Bool
  pub failed : Bool
  pub cancelled : Bool

-- An error of the callback; the context's is told apart.
pub data WalkError : Type 0 where
  stopped : WalkError
  refused : Error → WalkError

-- `fs.SkipDir` or nil.
pub data Control : Type 0 where
  skip_dir go_on : Control

-- `fmt.Sprintf("%04d", n)`
abbrev pub four_digits : ℕ → String
unfolding format_uint
four_digits n =
    append (if ltb n 10 then "000" else if ltb n 100 then "00" else if ltb n 1000 then "0" else "")
      (format_uint n)

abbrev pub set_fact : String → String → (String → Option String) → String → Option String
set_fact key value facts name = if str_eq key name then some value else facts name

abbrev pub no_facts : String → Option String
no_facts name = none

abbrev pub holds_fact : Option String → Bool
holds_fact none = false
holds_fact (some value) = str_eq value "true"

module _ (floats : Floats) where
  pub record State : Type 0 where
    pub candidates : List (Candidate floats)
    pub metadata_entries : ℕ
    pub targeted_reads : ℕ
    pub seen : List (String × String)  -- category and key, which a zero byte separates in the code

  -- What may be asked of the file system: the content of a file, and which names are ignored.
  pub record Reader : Type 0 where
    pub read_file : String → Option String
    pub is_ignored : String → Bool

  module _ (arithmetic : Arithmetic floats) (paths : PathLibrary) (lower : Char → Char) where
    -- The closure `add`; the count of a category is the number of its candidates.
    unfoldable pub add :
        String → String → String → floats.F → ℕ → (String → Option String) → State → State
    unfolding four_digits
    add category kind key confidence specificity facts s =
        if some_of (λ (p : String × String). str_eq p.0 category && str_eq p.1 key) s.seen
        then s
        else let n =
            tally (λ (c : Candidate floats). str_eq c.category category) s.candidates + 1 in
          let identifier = append category (append "." (four_digits n)) in
          record s {
            seen = (category, key) ∷ s.seen;
            candidates =
                s.candidates
                ++ record {
                  id = identifier;
                  category = category;
                  source_kind = kind;
                  source_ref = identifier;
                  confidence = confidence;
                  specificity = specificity;
                  facts = set_fact "source_kind" kind (set_fact "category" category facts);
                  conflicts = [];
                }
                  ∷ [];
          }

    abbrev one : floats.F
    one = arithmetic.hundredths 100

    abbrev nine_tenths : floats.F
    nine_tenths = arithmetic.hundredths 90

    abbrev add_metadata :
        String → String → floats.F → String → (String → Option String) → State → State
    unfolding add
    add_metadata category key confidence clean facts s =
        add category "repository_metadata" key confidence (path_depth clean) facts s

    unfoldable pub clean_name : String → String
    unfolding forward_slashes trim_prefix
    clean_name name =
        let clean = trim_prefix (paths.clean (forward_slashes name)) "./" in
        if str_eq clean "." then "" else clean

    -- What an instruction file says beyond its name, lines 157 to 165.
    unfoldable pub add_instruction : List String → String → String → State → State
    unfolding add mentions_scope to_lower str_contains
    add_instruction scopes clean content s =
        let known = add "instruction" "instruction" clean one (path_depth clean) no_facts s in
        let lowered = to_lower lower content in
        let facts =
          if mentions_scope lower lowered scopes
          then set_fact "conflicted" "true" no_facts
          else no_facts in
        if str_contains lowered "non-goal" || str_contains lowered "out of scope"
        then add "non_goal" "instruction" (append clean ":non-goal") nine_tenths (path_depth clean)
            facts known
        else known

    -- A file that is targeted, lines 143 to 167.
    unfoldable pub visit_file :
        Reader → List String → String → String → State → Result WalkError (State × Control)
    unfolding targeted_file file_category add_metadata applies_to_scope add_instruction
    visit_file reader scopes clean base s =
        let known = add_metadata (file_category clean base) clean one clean no_facts s in
        let reading = record known { targeted_reads = known.targeted_reads + 1 } in
        if not (targeted_file clean base)
        then ok (s, go_on)
        else if not (instruction_file base && applies_to_scope paths clean scopes)
        then ok (known, go_on)
        else elim (reader.read_file clean) [
          | none ↦ err (refused (sanitized "instruction file unavailable" "context_root"))
          | some content ↦
              if ltb 65536 (len content)
              then err (refused (sanitized "instruction file exceeds 65536 bytes" "context_root"))
              else ok (add_instruction scopes clean content reading, go_on)
        ]

    -- A directory, lines 132 to 142.
    unfoldable pub visit_dir : String → String → State → State × Control
    unfolding add_metadata
    visit_dir clean base s =
        if some_of (str_eq base) ("vendor" ∷ "node_modules" ∷ "third_party" ∷ [])
        then (add_metadata "vendor" clean one clean no_facts s, skip_dir)
        else if some_of (str_eq base) ("generated" ∷ "dist" ∷ "build" ∷ [])
        then (add_metadata "generated" clean nine_tenths clean no_facts s, skip_dir)
        else (s, go_on)

    abbrev leave : Entry → Control
    leave entry = if entry.is_dir then skip_dir else go_on

    -- The entry's name is clean, lines 109 to 142 and the files.
    unfoldable pub visit_clean :
        Reader → List String → Entry → String → State → Result WalkError (State × Control)
    unfolding visit_file visit_dir add_metadata to_lower
    visit_clean reader scopes entry clean s =
        let base = to_lower lower (paths.base clean) in
        let repository =
          add_metadata "repository" (append clean ":repository") one clean no_facts s in
        let worktree =
          add_metadata "worktree" (append clean ":worktree") one clean no_facts repository in
        if reader.is_ignored clean
        then ok (s, leave entry)
        else if entry.is_symlink
        then ok (
          add_metadata "security" (append clean ":symlink") one clean
              (set_fact "ambiguous" "true" no_facts) s,
          leave entry,
        )
        else if str_eq base ".git"
        then if entry.is_dir
          then ok (repository, skip_dir)
          else visit_file reader scopes clean base worktree
        else if entry.is_dir
        then ok (visit_dir clean base s)
        else visit_file reader scopes clean base s

    -- The callback of the walk.
    unfoldable pub visit : Reader → List String → Entry → State → Result WalkError (State × Control)
    unfolding visit_clean clean_name
    visit reader scopes entry s =
        let counted = record s { metadata_entries = s.metadata_entries + 1 } in
        if entry.failed
        then err (refused (sanitized "repository metadata unavailable" "context_root"))
        else if entry.cancelled
        then err stopped
        else if ltb 10000 counted.metadata_entries
        then err (refused (sanitized "repository metadata exceeds 10000 entries" "context_root"))
        else visit_clean reader scopes entry (clean_name entry.name) counted

    abbrev pub is_conflicted : Candidate floats → Bool
    is_conflicted c = str_eq c.category "non_goal" && holds_fact (c.facts "conflicted")

    abbrev pub is_scope : Candidate floats → Bool
    is_scope c = str_eq c.category "scope"

    abbrev pub ids : List (Candidate floats) → List String
    ids candidates = map (λ c. c.id) candidates

    -- `linkApplicableNonGoals`: each scope gets the conflicted non-goals and each of these the scopes.
    unfoldable pub link_one : List (Candidate floats) → Candidate floats → Candidate floats
    link_one candidates c =
        if is_scope c
        then record c { conflicts = c.conflicts ++ ids (keep is_conflicted candidates) }
        else if is_conflicted c
        then record c { conflicts = c.conflicts ++ ids (keep is_scope candidates) }
        else c

    unfoldable pub link_non_goals : List (Candidate floats) → List (Candidate floats)
    unfolding link_one
    link_non_goals candidates = map (link_one candidates) candidates

    abbrev pub has_id_before : Candidate floats → Candidate floats → Bool
    has_id_before a b = str_lt a.id b.id

    abbrev pub empty_state : State
    empty_state = record { candidates = []; metadata_entries = 0; targeted_reads = 0; seen = [] }

    -- The loop over the scopes.
    unfoldable pub add_scopes : List String → State → State
    unfolding add
    add_scopes [] s = s
    add_scopes (scope ∷ scopes) s =
        add_scopes scopes (add "scope" "user_request" scope one (path_depth scope) no_facts s)

    abbrev pub Walk : Type 0
    Walk = (Entry → State → Result WalkError (State × Control)) → State → Result WalkError State

    -- Behind the walk.
    unfoldable pub finish : Result WalkError State → Result Error State
    unfolding link_non_goals sort
    finish (err stopped) =
        err (
          new_error budget_exhausted "boundary discovery cancelled or timed out" "context_root"
            true)
    finish (err (refused e)) = err e
    finish (ok s) = ok (record s { candidates = sort has_id_before (link_non_goals s.candidates) })

    -- Whether there is a root; `none` is an error of another kind.
    unfoldable pub discover : Walk → Reader → Option Bool → List String → Result Error State
    unfolding normalize_scopes add_scopes visit finish
    discover walk reader root scopes = normalize_scopes paths scopes >>= λ normalized. elim root [
      | none ↦ err (sanitized "context root unavailable" "context_root")
      | some false ↦ ok empty_state
      | some true ↦ finish (walk (visit reader normalized) (add_scopes normalized empty_state))
    ]
