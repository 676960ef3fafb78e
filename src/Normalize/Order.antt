-- ===== src/Normalize/Order.antt =====
-- The order of assertions, and what sorting by it keeps.
use codex_prompt_better.Base.{◌≡◌, not, ◌&&◌, arith}
use codex_prompt_better.Base.Sorting.{IsStrictWeak}
use codex_prompt_better.Normalize.{Assertion, ranks_before, same_rank}

pub ranks_before-weak : IsStrictWeak ranks_before
unfolding ranks_before
ranks_before-weak = record { asym = λ x y h. ground arith; weak = λ x y z h k. ground arith }

-- Two assertions have the same rank exactly when neither ranks before the other.
pub same_rank-ranks_before :
    (a b : Assertion) → same_rank a b ≡ (not (ranks_before a b) && not (ranks_before b a))
unfolding same_rank ranks_before
same_rank-ranks_before a b = ground arith
