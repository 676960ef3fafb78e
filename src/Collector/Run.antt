-- ===== src/Collector/Run.antt =====
-- `Collector.Run`, with what it asks of its lease store, its store and its adapter as a list of
-- effects. What they answer is given beforehand, in `Answers`.
use codex_prompt_better.Base.{
  ℕ, zero, suc, ◌+◌, ◌-◌, ◌*◌, ◌%◌, ◌^◌, ◌==◌, String, Bool, true, false, ◌||◌, if◌then◌else◌, List,
  [], ◌∷◌, ◌++◌, Option, none, some,
}

-- The errors of adapters that the code tells apart.
pub data SourceError : Type 0 where
  disabled unsupported malformed truncated sensitive other_error : SourceError

pub data RunError : Type 0 where
  acquire_failed lease_held cursor_failed generation_failed digest_failed : RunError
  collection_failed wait_failed renew_failed identity_failed commit_failed : RunError
  -- the adapter's own error, handed on
  source_error : SourceError → RunError

-- `adapters.Result`; its records are counted.
pub record Collected : Type 0 where
  pub records : ℕ
  pub next_cursor : ℕ
  pub generation : String
  pub cursor_digest : String

pub record Commit : Type 0 where
  pub batch_id : String
  pub cursor : ℕ
  pub generation : String
  pub cursor_digest : String
  pub fence : String
  pub records : ℕ

pub record Options : Type 0 where
  pub batch_limit : ℕ
  pub max_attempts : ℕ
  pub base_backoff : ℕ  -- nanoseconds

pub data Effect : Type 0 where
  acquire read_cursor renew : Effect
  collect : ℕ → Effect
  wait : ℕ → Effect
  quarantine : SourceError → ℕ → Effect
  commit : Commit → Effect
  release : String → Effect

-- `none` is an error of the call. The two calls of optional interfaces answer the empty text where
-- the store has no such interface.
pub record Answers : Type 0 where
  pub acquired : Option (String × Bool)
  pub cursor : Option ℕ
  pub generation : Option String
  pub digest : Option String
  -- by the number of the attempt
  pub collected : ℕ → Collected × Option SourceError
  pub waited : ℕ → Bool
  pub renewed : Option Bool
  -- `evidence.OpaqueID` of the batch
  pub identity : Collected → ℕ → Option String
  pub committed : Commit → Bool

-- The named results of `Run`, and the effects in order.
pub record Outcome : Type 0 where
  pub result : Collected
  pub failure : Option RunError
  pub effects : List Effect

abbrev pub nothing : Collected
nothing = record { records = 0; next_cursor = 0; generation = ""; cursor_digest = "" }

unfoldable pub permanent : SourceError → Bool
permanent malformed = true
permanent truncated = true
permanent sensitive = true
permanent _ = false

-- The errors at which the loop breaks off and the run goes on.
abbrev pub is_unavailable : SourceError → Bool
is_unavailable disabled = true
is_unavailable unsupported = true
is_unavailable _ = false

-- `c.options.BaseBackoff*time.Duration(1<<(attempt-1))`, in 64 bits.
unfoldable pub backoff : ℕ → ℕ → ℕ
backoff base attempt = base * 2 ^ (attempt - 1) % 2 ^ 64

module _ (answers : Answers) (options : Options) where
  -- Behind the loop: `err` is the adapter's last error, `fence` the lease's.
  unfoldable pub store_batch : String → ℕ → Collected → Option SourceError → Outcome
  store_batch fence cursor result err =
      let failure : Option RunError = elim err [ none ↦ none | some e ↦ some (source_error e) ] in
      if result.records == 0
      then record { result = result; failure = failure; effects = [] }
      else elim answers.renewed [
        | none ↦ record { result = result; failure = some renew_failed; effects = renew ∷ [] }
        | some false ↦ record { result = result; failure = some lease_held; effects = renew ∷ [] }
        | some true ↦ elim (answers.identity result cursor) [
          | none ↦ record { result = result; failure = some identity_failed; effects = renew ∷ [] }
          | some batch_id ↦
              let batch : Commit = record {
                batch_id = batch_id;
                cursor = result.next_cursor;
                generation = result.generation;
                cursor_digest = result.cursor_digest;
                fence = fence;
                records = result.records;
              } in
              record {
                result = result;
                failure = if answers.committed batch then failure else some commit_failed;
                effects = renew ∷ commit batch ∷ [];
              }
        ]
      ]

  abbrev pub prepend : List Effect → Outcome → Outcome
  prepend effects o = record o { effects = effects ++ o.effects }

  -- The loop from an attempt on, with the attempts that are left.
  unfoldable pub attempts_loop : ℕ → ℕ → String → ℕ → Outcome
  attempts_loop zero attempt fence cursor =
      -- only a collector with no attempts at all comes here, and `New` makes none
      store_batch fence cursor nothing none
  attempts_loop (suc left) attempt fence cursor =
      let next = attempts_loop left (attempt + 1) fence cursor in
      let (result, err) = answers.collected attempt in
      elim err [
        | none ↦ prepend (collect attempt ∷ []) (store_batch fence cursor result none)
        | some e ↦
            if is_unavailable e
            then prepend (collect attempt ∷ []) (store_batch fence cursor result (some e))
            else if permanent e || attempt == options.max_attempts
            then record {
              result = result;
              failure = some collection_failed;
              effects = collect attempt ∷ quarantine e attempt ∷ [];
            }
            else if answers.waited attempt
            then prepend (collect attempt ∷ wait (backoff options.base_backoff attempt) ∷ []) next
            else record {
              result = result;
              failure = some wait_failed;
              effects = collect attempt ∷ wait (backoff options.base_backoff attempt) ∷ [];
            }
      ]

  -- The body of `Run` under the lease.
  unfoldable pub run_leased : String → Outcome
  run_leased fence = elim answers.cursor [
    | none ↦ record { result = nothing; failure = some cursor_failed; effects = read_cursor ∷ [] }
    | some cursor ↦ elim answers.generation [
      | none ↦ record {
        result = nothing;
        failure = some generation_failed;
        effects = read_cursor ∷ [];
      }
      | some generation ↦ elim answers.digest [
        | none ↦ record {
          result = nothing;
          failure = some digest_failed;
          effects = read_cursor ∷ [];
        }
        | some digest ↦
            prepend (read_cursor ∷ []) (attempts_loop options.max_attempts 1 fence cursor)
      ]
    ]
  ]

  -- `Run`; the deferred release is its last effect.
  unfoldable pub run : Outcome
  run = elim answers.acquired [
    | none ↦ record { result = nothing; failure = some acquire_failed; effects = acquire ∷ [] }
    | some (fence, false) ↦ record {
      result = nothing;
      failure = some lease_held;
      effects = acquire ∷ [];
    }
    | some (fence, true) ↦
        let o = run_leased fence in record o { effects = acquire ∷ o.effects ++ release fence ∷ [] }
  ]
