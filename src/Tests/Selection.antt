-- ===== src/Tests/Selection.antt =====
-- Two ranked decisions, the better one second.
use codex_prompt_better.Base.{◌≡◌, refl, Bool, String, List, [], ◌∷◌, take, tally}
use codex_prompt_better.Base.Sorting.{IsOrdered}
use codex_prompt_better.Boundary.Decision.{Outcome, warn, block, medium}
use codex_prompt_better.Boundary.Selection.{
  RankedDecision, better_decision, select_decisions, max_decisions,
}
use codex_prompt_better.Boundary.Selection.Laws.{push_all, select_decisions-push_all}

abbrev pub ranked : Outcome → String → RankedDecision
ranked outcome rule = record {
  decision = record {
    category = "scope";
    outcome = outcome;
    risk = 40;
    risk_level = medium;
    source_ref = "ref";
    pack_id = "core";
    rule_id = rule;
    version = "1.0.0";
    explanation = "asks";
    conflict_refs = [];
  };
  authority = 4;
  candidate_order = 0;
}

abbrev pub two_ranked : List RankedDecision
two_ranked = ranked warn "a" ∷ ranked block "b" ∷ []

two_ranked-select : select_decisions two_ranked ≡ ranked block "b" ∷ ranked warn "a" ∷ []
unfolding select_decisions
two_ranked-select = refl

select_decisions-push_all_example :
    (select_decisions two_ranked ≡ take max_decisions (push_all better_decision [] two_ranked))
    × IsOrdered better_decision (push_all better_decision [] two_ranked)
    × ((p : RankedDecision → Bool)
        → tally p (push_all better_decision [] two_ranked) ≡ tally p two_ranked)
select_decisions-push_all_example = select_decisions-push_all two_ranked
