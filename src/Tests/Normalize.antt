-- ===== src/Tests/Normalize.antt =====
-- Assertions that agree at the highest rank, and assertions that do not.
use codex_prompt_better.Base.{
  ℕ, ◌≡◌, ◌≢◌, refl, String, Bool, true, not, ◌&&◌, List, [], ◌∷◌, tally, str_eq,
}
use codex_prompt_better.Normalize.{Assertion, ranks_before, resolve}
use codex_prompt_better.Normalize.Laws.{resolve_agreed}

abbrev pub assertion : String → ℕ → Assertion
assertion value precedence = record {
  field = "model";
  value = value;
  source_kind = "jsonl";
  source_sequence = 7;
  monotonic_nanos = 2;
  observed_at = 3;
  precedence = precedence;
}

abbrev pub agreeing : List Assertion
agreeing = assertion "old" 1 ∷ assertion "new" 2 ∷ assertion "new" 2 ∷ []

abbrev pub tied : List Assertion
tied = assertion "left" 2 ∷ assertion "old" 1 ∷ assertion "right" 2 ∷ []

agreeing_some : agreeing ≢ []
agreeing_some e = cc

left≢right : ◌≢◌ {A = String} "left" "right"
left≢right e = cc

resolve_agreed_example :
    ((resolve agreeing).value ≡ "new")
    × ((resolve agreeing).ordering_uncertain ≡ true)
    × ((p : Assertion → Bool)
        → tally p (resolve agreeing).conflicts
          ≡ tally (λ a. p a && not (str_eq a.value "new")) agreeing)
unfolding ranks_before
resolve_agreed_example = resolve_agreed agreeing "new" agreeing_some refl
