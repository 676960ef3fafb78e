-- ===== src/Replay/Decision.antt =====
-- eval.go: the decision of `NewRun`.
use codex_prompt_better.Base.{Bool, true, false, ◌&&◌, ◌||◌, if◌then◌else◌}
use codex_prompt_better.Replay.Metric.{
  Outcome, improvement, regression, GateState, is_pass, is_fail,
}

pub data Decision : Type 0 where
  hold promote rollback : Decision

abbrev pub is_improvement : Outcome → Bool
is_improvement improvement = true
is_improvement _ = false

abbrev pub is_regression : Outcome → Bool
is_regression regression = true
is_regression _ = false

unfoldable pub decide : Outcome → GateState → Decision
decide outcome gate =
    let decision = if is_improvement outcome && is_pass gate then promote else hold in
    if is_regression outcome || is_fail gate then rollback else decision
