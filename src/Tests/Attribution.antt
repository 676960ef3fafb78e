-- ===== src/Tests/Attribution.antt =====
-- Two projects of which one has the observed repository and the other only the root.
use codex_prompt_better.Base.{◌≡◌, refl, ◌⊎◌, String, false, str_eq, [], ◌∷◌, tally, arith}
use codex_prompt_better.Base.Sorting.{sort}
use codex_prompt_better.Base.Patterns.{
  to_lower, trim_left, trim_right, trim_suffix, trim_prefix, replace_first,
}
use codex_prompt_better.Attribution.{Candidate, Observation, attributed, resolve}
use codex_prompt_better.Attribution.Laws.{Leads, state_of, resolve-Leads}
use codex_prompt_better.Tests.Evidence.{small_ascii}

abbrev alpha : Candidate
alpha = record {
  project_id = "alpha";
  repository_id = "repo";
  worktree_id = "";
  root = "/work/alpha/";
  remote = "";
  renamed_from = [];
  sparse = false;
}

abbrev beta : Candidate
beta = record alpha { project_id = "beta"; repository_id = ""; root = "/work/here" }

abbrev observed : Observation
observed = record {
  repository_id = "repo";
  worktree_id = "";
  root = "/work/here/";
  remote = "";
  project_ids = [];
  temporary = false;
}

observed-run :
    ((resolve small_ascii observed (beta ∷ alpha ∷ [])).project_ids ≡ "alpha" ∷ [])
    × ((resolve small_ascii observed (beta ∷ alpha ∷ [])).state ≡ attributed)
unfolding resolve to_lower trim_left trim_right trim_suffix trim_prefix replace_first sort
observed-run = (refl, refl)

-- A blank former name matches an observation without a remote.
blank_name-run :
    (resolve small_ascii
      (record observed { repository_id = ""; root = "/else" })
      (record beta { renamed_from = "" ∷ [] } ∷ [])).state
    ≡ attributed
unfolding resolve to_lower trim_left trim_right trim_suffix trim_prefix replace_first sort
blank_name-run = refl

resolve-Leads_example :
    let r = resolve small_ascii observed (beta ∷ alpha ∷ []) in
    ((p : String)
      → (Leads small_ascii observed (beta ∷ alpha ∷ []) p
          × (tally (λ n. str_eq n p) r.project_ids ≡ 1))
        ⊎ ((Leads small_ascii observed (beta ∷ alpha ∷ []) p → ⊥)
            × (tally (λ n. str_eq n p) r.project_ids ≡ 0)))
    × (r.state ≡ state_of r.project_ids)
resolve-Leads_example = resolve-Leads small_ascii observed (beta ∷ alpha ∷ []) refl (omega arith)
