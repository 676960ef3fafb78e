-- ===== src/Attribution.antt =====
-- internal/attribution/attribution.go: the project that evidence belongs to.
pub mod Laws
use codex_prompt_better.Base.{
  ℕ, ◌+◌, String, Bool, true, false, not, ◌&&◌, ◌==◌, if◌then◌else◌, str_eq, ltb, leb, List, [],
  ◌∷◌, ◌++◌, map, keep, length, max, some_of, ◌||◌,
}
use codex_prompt_better.Base.Text.{str_lt}
use codex_prompt_better.Base.Sorting.{sort}
use codex_prompt_better.Base.Patterns.{
  Unicode, to_lower, trim_space, trim_suffix, trim_prefix, replace_first,
}

pub record Candidate : Type 0 where
  pub project_id : String
  pub repository_id : String
  pub worktree_id : String
  pub root : String
  pub remote : String
  pub renamed_from : List String
  pub sparse : Bool

pub record Observation : Type 0 where
  pub repository_id : String
  pub worktree_id : String
  pub root : String
  pub remote : String
  pub project_ids : List String
  pub temporary : Bool

pub data State : Type 0 where
  unattributed multi_project ambiguous attributed : State

pub data Confidence : Type 0 where
  unknown low medium high : Confidence

pub record Attribution : Type 0 where
  pub project_ids : List String
  pub evidence : List String
  pub confidence : Confidence
  pub state : State

-- The entry that a project has in the maps `scores` and `evidenceByProject`.
pub record Entry : Type 0 where
  pub project_id : String
  pub score : ℕ
  pub evidence : List String

-- The members without the empty text and without repetition; `seen` is what was met before.
unfoldable pub unique_loop : List String → List String → List String
unique_loop seen [] = seen
unique_loop seen (value ∷ values) =
    unique_loop
      (if str_eq value "" || some_of (λ s. str_eq s value) seen then seen else value ∷ seen) values

unfoldable pub unique : List String → List String
unfolding unique_loop sort
unique values = sort str_lt (unique_loop [] values)

-- `scores[project] += score`, with the reason.
unfoldable pub add : String → ℕ → String → List Entry → List Entry
add project score reason [] =
    record { project_id = project; score = score; evidence = reason ∷ [] } ∷ []
add project score reason (e ∷ entries) =
    if str_eq e.project_id project
    then record e { score = e.score + score; evidence = e.evidence ++ reason ∷ [] } ∷ entries
    else e ∷ add project score reason entries

unfoldable pub add_all : String → List (ℕ × String) → List Entry → List Entry
unfolding add
add_all project [] entries = entries
add_all project ((score, reason) ∷ reasons) entries =
    add_all project reasons (add project score reason entries)

-- A score is at most 280 and 50 for each former name, so the sums stay within an int.
unfoldable pub best_of : List Entry → ℕ
best_of [] = 0
best_of (e ∷ entries) = max e.score (best_of entries)

unfoldable pub evidence_of : List Entry → String → List String
evidence_of [] project = []
evidence_of (e ∷ entries) project =
    if str_eq e.project_id project then e.evidence else evidence_of entries project

unfoldable pub winners : ℕ → List Entry → List String
winners best [] = []
winners best (e ∷ entries) =
    let rest = winners best entries in
    if e.score == best && ltb 0 e.score then e.project_id ∷ rest else rest

-- The answer by the projects that have the best score.
unfoldable pub conclude : ℕ → List Entry → List String → Attribution
unfolding evidence_of
conclude best entries [] = record {
  project_ids = [];
  evidence = [];
  confidence = unknown;
  state = unattributed;
}
conclude best entries (p ∷ []) = record {
  project_ids = p ∷ [];
  evidence = evidence_of entries p;
  confidence = if leb 80 best then high else medium;
  state = attributed;
}
conclude best entries (p ∷ q ∷ ps) = record {
  project_ids = p ∷ q ∷ ps;
  evidence = "conflicting_equal_precedence" ∷ [];
  confidence = low;
  state = ambiguous;
}

module _ (unicode : Unicode) where
  unfoldable pub normalized_remote : String → String
  unfolding to_lower trim_suffix trim_prefix replace_first
  normalized_remote remote =
      let bare = trim_suffix (trim_space unicode (to_lower unicode.lower remote)) ".git" in
      let without = trim_prefix (trim_prefix bare "https://") "ssh://" in
      replace_first (replace_first without "git@" "") ":" "/"

  unfoldable pub clean_root : String → String
  unfolding trim_suffix
  clean_root root = trim_suffix (trim_space unicode root) "/"

  -- What the loop over the candidates adds for one, in its order.
  unfoldable pub reasons : Observation → Candidate → List (ℕ × String)
  unfolding normalized_remote clean_root
  reasons o c =
      let remote = normalized_remote o.remote in
      (if not (str_eq o.worktree_id "") && str_eq o.worktree_id c.worktree_id
        then (100, "worktree_identity") ∷ []
        else [])
      ++ ((if not (str_eq o.repository_id "") && str_eq o.repository_id c.repository_id
            then (80, "repository_identity") ∷ []
            else [])
          ++ ((if not (str_eq remote "") && str_eq remote (normalized_remote c.remote)
                then (60, "remote_identity") ∷ []
                else [])
              ++ (map (λ _. (50, "renamed_remote"))
                    (keep (λ r. str_eq remote (normalized_remote r)) c.renamed_from)
                  ++ (if not (str_eq c.root "") && str_eq (clean_root o.root) (clean_root c.root)
                      then (40, "root_identity") ∷ []
                      else []))))

  unfoldable pub score_all : Observation → List Candidate → List Entry → List Entry
  unfolding reasons add_all
  score_all o [] entries = entries
  score_all o (c ∷ candidates) entries =
      score_all o candidates
        (if str_eq c.project_id "" then entries else add_all c.project_id (reasons o c) entries)

  unfoldable pub resolve : Observation → List Candidate → Attribution
  unfolding unique score_all best_of winners conclude sort
  resolve o candidates =
      if o.temporary
      then record {
        project_ids = [];
        evidence = "temporary_directory" ∷ [];
        confidence = unknown;
        state = unattributed;
      }
      else if ltb 1 (length o.project_ids)
      then record {
        project_ids = unique o.project_ids;
        evidence = "explicit_multi_project" ∷ [];
        confidence = high;
        state = multi_project;
      }
      else (let entries = score_all o candidates [] in
          conclude (best_of entries) entries (sort str_lt (winners (best_of entries) entries)))
