-- ===== src/Adapters/Sources.antt =====
-- internal/adapters/sources.go: the sources, each with attributes of which a record has one.
use mathlib.Core.Path.{subst}
use codex_prompt_better.Base.{
  ℕ, ◌≡◌, String, Bool, true, not, ◌&&◌, ◌||◌, if◌then◌else◌, List, [], ◌∷◌, Option, none, some,
  some_of, each_of, All, if-cases, inl, inr, ap, arith, length, ◌==◌,
}
use codex_prompt_better.Base.Patterns.{Unicode}
use codex_prompt_better.Evidence.Record.{Record, lookup, is_empty}
use codex_prompt_better.Adapters.Jsonl.{
  Request, Collected, Answer, Codec, Jsonl, malformed, partial_result,
}
use codex_prompt_better.Adapters.Collect.{collect}
use codex_prompt_better.Adapters.Slices.{some≢none}

-- The reader as `Jsonl` has it.
pub record SourceOptions : Type 0 where
  pub has_data : Bool
  pub lines : List String
  pub scan_failed : Bool
  pub key : List ℕ
  pub enabled : Bool
  pub supported : Bool
  pub purpose : String
  pub identity : String

pub record Contract : Type 0 where
  pub base : Jsonl
  pub required_any : List String

abbrev pub new_source : String → SourceOptions → List String → Contract
new_source kind options required = record {
  base = record {
    kind = kind;
    has_data = options.has_data;
    lines = options.lines;
    scan_failed = options.scan_failed;
    key = options.key;
    identity = if is_empty options.identity then kind else options.identity;
    enabled = options.enabled;
    supported = options.supported;
  };
  required_any = required;
}

module _ (options : SourceOptions) where
  abbrev pub configuration : Contract
  configuration = new_source "configuration" options ("execution_policy" ∷ "activity_class" ∷ [])

  abbrev pub git : Contract
  git = new_source "git" options ("repository_alias" ∷ "worktree_alias" ∷ [])

  abbrev pub github : Contract
  github = new_source "github" options ("event_kind" ∷ "repository_alias" ∷ [])

  abbrev pub codex_jsonl : Contract
  codex_jsonl = new_source "codex_jsonl" options ("phase" ∷ "response_lineage" ∷ [])

  abbrev pub codex_state : Contract
  codex_state = new_source "codex_state_sqlite" options ("thread_alias" ∷ "state" ∷ [])

  abbrev pub rollout : Contract
  rollout = new_source "rollout_summary" options ("trajectory_alias" ∷ "compaction_state" ∷ [])

  -- `none` is `ErrPurposeRequired`.
  unfoldable pub process : Option Contract
  process =
      if options.enabled && is_empty options.purpose
      then none
      else some (new_source "process" options ("purpose" ∷ []))

-- `record.Attributes[field]`; reading a nil map gives the empty text.
abbrev pub attribute : Record → String → String
attribute r field = elim r.attributes [ none ↦ "" | some attributes ↦ lookup attributes field ]

abbrev pub matches : List String → Record → Bool
matches required r = length required == 0 || some_of (λ f. not (is_empty (attribute r f))) required

abbrev pub checked : List String → Answer → Answer
checked required (result, some e) = (result, some e)
checked required (result, none) =
    if each_of (matches required) result.records
    then (result, none)
    else (partial_result result "schema_drift", some malformed)

unfoldable pub contract_collect : Unicode → Codec → Contract → Request → (ℕ → Bool) → Answer
unfolding collect
contract_collect unicode codec contract request stopped =
    checked contract.required_any (collect unicode codec contract.base request stopped)

All-each_of :
    {A : Type 0} (p : A → Bool) (xs : List A) → each_of p xs ≡ true → All (λ x. p x ≡ true) xs
All-each_of p [] e = tt
All-each_of p (x ∷ xs) e = (ground arith, All-each_of p xs (ground arith))

checked-matches :
    (required : List String) (answer : Answer) (end : Collected)
    → checked required answer ≡ (end, none)
    → (answer ≡ (end, none)) × All (λ r. matches required r ≡ true) end.records
checked-matches required (result, some f) end e = absurd (some≢none f (ap (λ a. a.1) e))
checked-matches required (result, none) end e =
    elim (if-cases (each_of (matches required) result.records) e) [
      | inl (t, same) ↦ (
        same,
        subst (λ (x : Collected). All (λ r. matches required r ≡ true) x.records)
            (ap (λ a. a.0) same) (All-each_of (matches required) result.records t),
      )
      | inr (_, same) ↦ absurd (some≢none malformed (ap (λ a. a.1) same))
    ]

-- If a collection under a contract ends without an error, then its answer is that of the source
-- itself, and every record of it has a value for one of the contract's attributes, if there are any.
pub contract_collect-matches :
    (unicode : Unicode) (codec : Codec) (contract : Contract) (request : Request)
    (stopped : ℕ → Bool) (end : Collected)
    → contract_collect unicode codec contract request stopped ≡ (end, none)
    → (collect unicode codec contract.base request stopped ≡ (end, none))
      × All (λ r. matches contract.required_any r ≡ true) end.records
unfolding contract_collect
contract_collect-matches unicode codec contract request stopped end e =
    checked-matches contract.required_any _ end e
