-- ===== src/Tests/Collector.antt =====
-- A run that waits once and then commits.
use codex_prompt_better.Base.{◌≤◌, ◌≡◌, refl, true, some, none, tally, [], ◌∷◌, ◌==◌, if◌then◌else◌}
use codex_prompt_better.Collector.Run.{
  other_error, Collected, Options, Answers, run, release, nothing, acquire, read_cursor, renew,
  collect, wait, commit, run_leased, attempts_loop, permanent, backoff, store_batch,
}
use codex_prompt_better.Collector.Laws.{is_collect, is_final, is_release, lease, run-counts}

abbrev pub a_batch : Collected
a_batch = record { records = 3; next_cursor = 40; generation = "g"; cursor_digest = "d" }

-- The first attempt fails, the second collects a batch.
abbrev pub one_retry : Answers
one_retry = record {
  acquired = some ("fence", true);
  cursor = some 10;
  generation = some "";
  digest = some "";
  collected = λ a. if a == 1 then (nothing, some other_error) else (a_batch, none);
  waited = λ a. true;
  renewed = some true;
  identity = λ c a. some "id";
  committed = λ c. true;
}

abbrev pub three_attempts : Options
three_attempts = record { batch_limit = 100; max_attempts = 3; base_backoff = 1000 }

one_retry-run :
    (run one_retry three_attempts).effects
    ≡ acquire
      ∷ read_cursor
      ∷ collect 1
      ∷ wait 1000
      ∷ collect 2
      ∷ renew
      ∷ commit (record {
        batch_id = "id";
        cursor = 40;
        generation = "g";
        cursor_digest = "d";
        fence = "fence";
        records = 3;
      })
      ∷ release "fence"
      ∷ []
unfolding run run_leased attempts_loop permanent backoff store_batch
one_retry-run = refl

run-counts_example :
    (tally is_final (run one_retry three_attempts).effects ≤ 1)
    × (tally is_collect (run one_retry three_attempts).effects ≤ 3)
    × (tally is_release (run one_retry three_attempts).effects ≡ 1)
    × (lease one_retry ≡ none → tally is_collect (run one_retry three_attempts).effects ≡ 0)
run-counts_example = run-counts one_retry three_attempts
