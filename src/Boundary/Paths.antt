-- ===== src/Boundary/Paths.antt =====
-- The paths that internal/boundary/discovery.go reads: scopes, and which files say what. Go's
-- package path is a parameter.
pub mod Laws
use Prim.Native.Char.{Char, code}
use Prim.Native.String.{[] as empty, ◌∷◌ as ◌◂◌, count}
use mathlib.Core.Path.{subst}
use codex_prompt_better.Base.{
  ℕ, ◌+◌, ◌≤◌, ◌≡◌, ◌⊎◌, inl, inr, String, Bool, true, false, not, ◌&&◌, ◌||◌, ◌==◌, if◌then◌else◌,
  str_eq, ltb, leb, List, [], ◌∷◌, ◌++◌, some_of, tally, some_of-tally, All, All-append,
  tally-append, eq_iff, Result, ok, err, ok-injective, Result-cases, ◌∙◌, Bool-cases, arith,
}
use codex_prompt_better.Base.Text.{str_lt}
use codex_prompt_better.Base.Sorting.{sort, All-sort, tally-sort}
use codex_prompt_better.Base.Patterns.{
  has_prefix, has_suffix, str_contains, to_lower, trim_prefix, drop_chars,
}
use codex_prompt_better.Contracts.{Error, new_error, semantic_invalid}

-- `path.Clean`, `path.Base`, `path.Dir` and `path.IsAbs`.
pub record PathLibrary : Type 0 where
  pub clean : String → String
  pub base : String → String
  pub dir : String → String
  pub is_abs : String → Bool

abbrev pub sanitized : String → String → Error
sanitized message field = new_error semantic_invalid message field false

-- `strings.ReplaceAll(value, "\\", "/")`
unfoldable pub forward_slashes : String → String
forward_slashes empty = empty
forward_slashes (c ◂ s) = (if code c == code "\\" then "/" else c) ◂ forward_slashes s

abbrev pub slashes : String → ℕ
slashes empty = 0
slashes (c ◂ s) = (if code c == code "/" then 1 else 0) + slashes s

abbrev pub path_depth : String → ℕ
path_depth value = if str_eq value "" then 0 else slashes value + 1

abbrev pub instruction_file : String → Bool
instruction_file base = str_eq base "agents.md" || str_eq base "claude.md"

unfoldable pub privacy_metadata_file : String → Bool
unfolding trim_prefix
privacy_metadata_file base =
    if str_eq base ".env" || str_eq base "credentials.json" || str_eq base "secrets.json"
    then true
    else if not (has_prefix base ".env.")
    then false
    else not (
        some_of (str_eq (trim_prefix base ".env."))
          ("example" ∷ "sample" ∷ "template" ∷ "dist" ∷ []))

unfoldable pub workflow_file : String → String → Bool
unfolding str_contains has_suffix
workflow_file name base =
    (has_prefix name ".github/workflows/" || str_contains name "/.github/workflows/")
    && (has_suffix base ".yml" || has_suffix base ".yaml")

unfoldable pub targeted_file : String → String → Bool
unfolding workflow_file privacy_metadata_file
targeted_file name base =
    workflow_file name base
    || instruction_file base
    || str_eq base "security.md"
    || privacy_metadata_file base
    || str_eq base "release-please-config.json"
    || str_eq base ".goreleaser.yml"
    || str_eq base ".goreleaser.yaml"
    || str_eq base "makefile"

unfoldable pub file_category : String → String → String
unfolding workflow_file privacy_metadata_file str_contains
file_category name base =
    if instruction_file base
    then "instruction"
    else if privacy_metadata_file base
    then "privacy"
    else if workflow_file name base || str_eq base "makefile" || str_eq base "security.md"
    then if str_contains base "release" || str_contains base "publish"
      then "release"
      else "validation"
    else "release"

abbrev scope_token : Char → Bool
scope_token c =
    leb (code "a") (code c) && leb (code c) (code "z")
    || leb (code "0") (code c) && leb (code c) (code "9")
    || code c == code "_"
    || code c == code "-"

abbrev may_follow : String → Bool
may_follow empty = true
may_follow (c ◂ s) = not (scope_token c) || code c == code "/"

-- The inner loop of `mentionsScope`; `starts` is `beforeOK`.
unfoldable pub mentions_at : String → Bool → String → Bool
unfolding drop_chars
mentions_at scope starts empty = false
mentions_at scope starts (c ◂ s) =
    starts && has_prefix (c ◂ s) scope && may_follow (drop_chars (count scope) (c ◂ s))
    || mentions_at scope (not (scope_token c)) s

module _ (lower : Char → Char) where
  unfoldable pub mentions_scope : String → List String → Bool
  unfolding to_lower forward_slashes mentions_at
  mentions_scope content scopes =
      some_of
        (λ scope.
          not (str_eq scope "")
          && mentions_at (to_lower lower scope) true (forward_slashes (to_lower lower content)))
        scopes

module _ (paths : PathLibrary) where
  unfoldable pub applies_to_scope : String → List String → Bool
  applies_to_scope name scopes =
      let found = paths.dir name in
      let dir = if str_eq found "." then "" else found in applies dir scopes
    where
      applies : String → List String → Bool
      applies dir [] = str_eq dir ""
      applies dir (s ∷ ss) =
          some_of
            (λ scope.
              str_eq dir ""
              || str_eq scope dir
              || has_prefix scope (Prim.Native.String.◌++◌ dir "/"))
            (s ∷ ss)

  abbrev pub clean_scope : String → String
  unfolding forward_slashes
  clean_scope value =
      let clean = paths.clean (forward_slashes value) in if str_eq clean "." then "" else clean

  abbrev pub leaves_root : String → Bool
  leaves_root clean =
      paths.is_abs clean || str_eq clean ".." || has_prefix clean "../" || ltb 64 (path_depth clean)

  unfoldable pub scopes_loop : List String → List String → Result Error (List String)
  unfolding clean_scope
  scopes_loop result [] = ok result
  scopes_loop result (value ∷ values) =
      let clean = clean_scope value in
      elim (leaves_root clean) [
        | true ↦ err (sanitized "scope must remain within context root" "scope")
        | false ↦ elim (some_of (λ s. str_eq s clean) result) [
          | true ↦ scopes_loop result values
          | false ↦ scopes_loop (result ++ clean ∷ []) values
        ]
      ]

  abbrev sort_result : Result Error (List String) → Result Error (List String)
  unfolding sort
  sort_result (err e) = err e
  sort_result (ok scopes) = ok (sort str_lt scopes)

  unfoldable pub normalize_scopes : List String → Result Error (List String)
  unfolding scopes_loop sort_result
  normalize_scopes scopes = sort_result (scopes_loop [] scopes)
