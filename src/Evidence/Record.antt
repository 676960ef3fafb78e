-- ===== src/Evidence/Record.antt =====
-- The normalised record of evidence: `Record`, `Lineage`, `ParseLineage`, `OpaqueID` and `Validate`.
-- A map is the list of its entries, in the order in which a loop meets them; `none` is a nil map or
-- slice; an instant is a number, 0 the zero time.
use Prim.Native.String.{◌∷◌ as ◌◂◌, [] as empty, ◌++◌ as append}
use Prim.Native.Char.{code}
use codex_prompt_better.Base.{
  ℕ, zero, suc, ◌+◌, ◌*◌, ◌-◌, ◌^◌, String, Bool, true, false, not, ◌&&◌, ◌||◌, ◌==◌, if◌then◌else◌,
  str_eq, ltb, leb, List, [], ◌∷◌, Option, none, some, length, some_of, Result, ok, err, require,
}
use codex_prompt_better.Base.Integers.{ℤ, pos, negsuc}
use codex_prompt_better.Base.Patterns.{Unicode}
use codex_prompt_better.Contracts.{CoverageState}
use codex_prompt_better.Evidence.Sensitive.{sensitive_key, secret_like}

abbrev pub Attributes : Type 0
Attributes = List (String × String)

-- `attributes[name]`, the empty text for an absent key.
unfoldable pub lookup : Attributes → String → String
lookup [] name = ""
lookup ((field, value) ∷ attributes) name =
    if str_eq field name then value else lookup attributes name

pub data EvidenceError : Type 0 where
  sensitive short_key incomplete_metadata uninitialized : EvidenceError

pub record Lineage : Type 0 where
  pub session_id : String
  pub trajectory_id : String
  pub parent_trajectory_id : String
  pub task_id : String
  pub turn_id : String
  pub turn_ordinal : Option ℕ
  pub response_id : String
  pub parent_response_id : String
  pub tool_call_id : String
  pub caller_tool_call_id : String
  pub tool_kind : String
  pub call_path : String

abbrev pub is_empty : String → Bool
is_empty text = str_eq text ""

unfoldable pub is_incomplete : Lineage → Bool
is_incomplete l =
    if not (is_empty l.trajectory_id) && is_empty l.session_id
    then true
    else if not (is_empty l.turn_id)
        && (is_empty l.trajectory_id || elim l.turn_ordinal [ none ↦ true | some _ ↦ false ])
    then true
    else if not (is_empty l.response_id) && is_empty l.turn_id
    then true
    else not (is_empty l.tool_call_id) && is_empty l.response_id

-- `strconv.ParseInt(text, 10, 64)`: a sign, digits, and the bounds of 64 bits.
unfoldable pub digits : ℕ → String → Option ℕ
digits n empty = some n
digits n (c ◂ rest) =
    let more = digits (10 * n + (code c - 48)) rest in
    if leb 48 (code c) && leb (code c) 57 then more else none

abbrev pub number : String → Option ℕ
number empty = none
number (c ◂ rest) = digits 0 (c ◂ rest)

abbrev pub negated : ℕ → ℤ
negated zero = pos 0
negated (suc n) = negsuc n

abbrev pub below : ℕ → (ℕ → ℤ) → Option ℕ → Option ℤ
below bound signed none = none
below bound signed (some n) = if leb n bound then some (signed n) else none

unfoldable pub parse_int : String → Option ℤ
unfolding digits
parse_int empty = none
parse_int (c ◂ rest) =
    if code c == 45
    then below (2 ^ 63) negated (number rest)
    else if code c == 43
    then below (2 ^ 63 - 1) pos (number rest)
    else below (2 ^ 63 - 1) pos (number (c ◂ rest))

-- An ordinal is kept if it is not negative.
abbrev pub ordinal_of : Option ℤ → Option ℕ
ordinal_of none = none
ordinal_of (some (pos n)) = some n
ordinal_of (some (negsuc n)) = none

unfoldable pub parse_lineage : Attributes → Lineage
unfolding lookup parse_int
parse_lineage attributes =
    let session = lookup attributes "session_alias" in
    record {
      session_id = if is_empty session then lookup attributes "thread_alias" else session;
      trajectory_id = lookup attributes "trajectory_alias";
      parent_trajectory_id = lookup attributes "delegation_parent";
      task_id = lookup attributes "task_alias";
      turn_id = lookup attributes "turn_alias";
      turn_ordinal = ordinal_of (parse_int (lookup attributes "turn_ordinal"));
      response_id = lookup attributes "response_lineage";
      parent_response_id = lookup attributes "parent_response_alias";
      tool_call_id = lookup attributes "tool_call_alias";
      caller_tool_call_id = lookup attributes "caller_alias";
      tool_kind = lookup attributes "tool_kind";
      call_path = lookup attributes "call_path";
    }

-- What `OpaqueID` writes into the hash: each part behind a zero byte.
unfoldable pub framed : List String → String
framed [] = ""
framed (part ∷ parts) = append "\0" (append part (framed parts))

-- `mac key text` is the text in hexadecimal digits of HMAC-SHA-256.
unfoldable pub opaque_id :
    (List ℕ → String → String) → List ℕ → List String → Result EvidenceError String
unfolding framed
opaque_id mac key parts = if ltb (length key) 32 then err short_key else ok (mac key (framed parts))

pub record Record : Type 0 where
  pub id : String
  pub source_kind : String
  pub source_version : String
  pub sequence : ℕ
  pub event_at : Option ℕ
  pub ingested_at : ℕ
  pub observed_at : ℕ
  pub monotonic_nanos : ℤ
  pub classification : String
  pub coverage : CoverageState
  pub coverage_reason : String
  pub product_surface : String
  pub content_sha256 : String
  pub redacted_fields : Option (List String)
  pub attributes : Option Attributes
  pub late_revision : Bool
  pub ordering_uncertain : Bool
  pub governance_overhead : Bool
  pub lineage : Lineage

module _ (unicode : Unicode) where
  unfoldable pub leaks : Attributes → Bool
  unfolding sensitive_key secret_like
  leaks attributes =
      some_of (λ entry. sensitive_key unicode entry.0 || secret_like unicode entry.1) attributes

  abbrev validate_collections :
      Option Attributes → Option (List String) → Result EvidenceError (Unit {0})
  validate_collections (some attributes) (some redacted) =
      require (not (leaks attributes)) sensitive
  validate_collections (some attributes) none = err uninitialized
  validate_collections none redacted = err uninitialized

  unfoldable pub validate : Record → Result EvidenceError (Unit {0})
  unfolding leaks
  validate r =
      if is_empty r.id || is_empty r.source_kind || r.ingested_at == 0 || r.observed_at == 0
      then err incomplete_metadata
      else validate_collections r.attributes r.redacted_fields
