-- ===== src/Adapters/Collect.antt =====
-- The two loops of `JSONL.Collect`: over the lines, and over what they are parsed to.
use Prim.Native.String.{◌++◌ as append}
use codex_prompt_better.Base.{
  ℕ, ◌+◌, String, Bool, false, not, ◌||◌, ◌==◌, if◌then◌else◌, str_eq, ltb, leb, List, [], ◌∷◌,
  ◌++◌, Option, none, some, length, take, Result, ok, err, ◌>>=◌,
}
use codex_prompt_better.Base.Decimal.{format_uint}
use codex_prompt_better.Base.Integers.{ℤ, is_positive, pos, negsuc}
use codex_prompt_better.Base.Patterns.{Unicode}
use codex_prompt_better.Contracts.{complete, partial, missing, unknown}
use codex_prompt_better.Evidence.Record.{
  Record, Attributes, EvidenceError, lookup, is_incomplete, opaque_id, parse_lineage, validate,
  is_empty,
}
use codex_prompt_better.Evidence.Sanitize.{sanitize}
use codex_prompt_better.Adapters.Jsonl.{
  Request, Source, ParsedRecord, Collected, CollectError, Answer, Codec, Jsonl, disabled,
  unsupported, malformed, truncated, cancelled, refused, unavailable, partial_result, surface,
}

abbrev pub identity_version : String
identity_version = "identity-v2"

-- `attributes[field] = value`.
unfoldable pub set : Attributes → String → String → Attributes
set [] field value = (field, value) ∷ []
set ((f, old) ∷ attributes) field value =
    if str_eq f field then (f, value) ∷ attributes else (f, old) ∷ set attributes field value

unfoldable pub canonical_text : List ParsedRecord → String
canonical_text [] = ""
canonical_text (p ∷ parsed) = append p.canonical (append "\0" (canonical_text parsed))

unfoldable pub digest_prefix : (List ℕ → String → String) → List ℕ → List ParsedRecord → ℕ → String
unfolding canonical_text
digest_prefix mac key parsed cursor =
    mac key (append identity_version (append "\0" (canonical_text (take cursor parsed))))

-- How a step of the second loop ends: with the answer, or with the result so far.
pub data Step : Type 0 where
  stop : Answer → Step
  go_on : Collected → Step

-- `len(result.Records) == request.Limit`.
abbrev pub reached : ℕ → ℤ → Bool
reached n (pos limit) = n == limit
reached n (negsuc limit) = false

abbrev pub of_evidence {ℓ} :
    {A : Type ℓ} → Result EvidenceError A → Result (Option String × CollectError) A
of_evidence (ok a) = ok a
of_evidence (err e) = err (some "sensitive", refused e)

module _ (unicode : Unicode) (codec : Codec) (source : Jsonl) (request : Request) where
  -- The instant of a record and, if the line has one, of its event.
  unfoldable pub instants : String → Result (Option String × CollectError) (ℕ × Option ℕ)
  instants text =
      if is_empty text then ok (request.observed_at, none) else elim (codec.parse_time text) [
        | none ↦ err (some "malformed_time", malformed)
        | some t ↦ ok (t, some t)
      ]

  -- The body of the first loop; an error comes with the reason that the result is marked with.
  unfoldable pub parse_decoded : Source → Result (Option String × CollectError) ParsedRecord
  unfolding instants sanitize
  parse_decoded decoded = instants decoded.observed_at >>= λ times.
      of_evidence (sanitize unicode codec.mac source.kind source.key decoded.attributes) >>= λ both.
      ok (record {
        version = decoded.version;
        canonical = codec.encode decoded.version decoded.observed_at both.0;
        observed_at = times.0;
        event_at = times.1;
        attributes = both.0;
        redacted = both.1;
      })

  abbrev pub parse_source : Option Source → Result (Option String × CollectError) ParsedRecord
  parse_source none = err (some "malformed", malformed)
  parse_source (some decoded) = parse_decoded decoded

  unfoldable pub parse_line : String → Result (Option String × CollectError) ParsedRecord
  unfolding parse_decoded
  parse_line line = parse_source (codec.decode line)

  -- `stopped n` is whether the context is cancelled when line n is read.
  unfoldable pub parse_lines :
      (ℕ → Bool) → ℕ → List String → Result (Option String × CollectError) (List ParsedRecord)
  unfolding parse_line
  parse_lines stopped n [] =
      if source.scan_failed then err (some "truncated_or_oversized", truncated) else ok []
  parse_lines stopped n (line ∷ lines) =
      if stopped n
      then err (none, cancelled)
      else parse_line line >>= λ p. parse_lines stopped (n + 1) lines >>= λ ps. ok (p ∷ ps)

  -- The result is marked if the record's lineage is incomplete.
  unfoldable pub mark : Record → Collected → Collected
  unfolding is_incomplete
  mark r result =
      if is_incomplete r.lineage then partial_result result "lineage_incomplete" else result

  unfoldable pub emit : Record → ℕ → Collected → Step
  unfolding validate mark
  emit r sequence result = elim (validate unicode r) [
    | err e ↦ Step.stop (partial_result (mark r result) "invalid", some (refused e))
    | ok _ ↦
        let kept = record (mark r result) {
          records = (mark r result).records ++ r ∷ [];
          next_cursor = sequence;
        } in
        if reached (length kept.records) request.limit
        then Step.stop (kept, none)
        else Step.go_on kept
  ]

  module _ (generation : String) (rotated : Bool) where
    unfoldable pub make_record : String → ℕ → ParsedRecord → Record
    unfolding lookup parse_lineage is_incomplete set surface
    make_record id sequence item =
        let lineage = parse_lineage item.attributes in
        let overhead = str_eq (lookup item.attributes "activity_class") "governance_overhead" in
        record {
          id = id;
          source_kind = source.kind;
          source_version = item.version;
          sequence = sequence;
          event_at = item.event_at;
          ingested_at = request.observed_at;
          observed_at = item.observed_at;
          monotonic_nanos = request.monotonic_nanos;
          classification = "internal";
          coverage = if is_incomplete lineage then partial else complete;
          coverage_reason = if is_incomplete lineage then "lineage_incomplete" else "";
          product_surface = surface source.kind;
          content_sha256 = codec.mac source.key item.canonical;
          redacted_fields = some item.redacted;
          attributes = some (
              if overhead
              then set item.attributes "collection_trigger" "suppressed"
              else item.attributes);
          late_revision = rotated;
          ordering_uncertain = false;
          governance_overhead = overhead;
          lineage = lineage;
        }

    -- The body of the second loop.
    unfoldable pub collect_one : ℕ → ℕ → ParsedRecord → Collected → Step
    unfolding opaque_id make_record emit format_uint
    collect_one cursor sequence item result =
        if leb sequence cursor
        then Step.go_on result
        else elim (opaque_id codec.mac source.key
            (source.kind ∷ generation ∷ format_uint sequence ∷ [])) [
              | err e ↦ Step.stop (result, some (refused e))
              | ok id ↦ emit (make_record id sequence item) sequence result
            ]

    abbrev pub follow : Step → (Collected → Answer) → Answer
    follow (stop answer) rest = answer
    follow (go_on result) rest = rest result

    -- The loop, with the number of items before it.
    unfoldable pub collect_each : ℕ → ℕ → List ParsedRecord → Collected → Answer
    unfolding collect_one
    collect_each cursor index [] result = (result, none)
    collect_each cursor index (item ∷ items) result =
        follow (collect_one cursor (index + 1) item result)
          (λ r. collect_each cursor (index + 1) items r)

  unfoldable pub base_generation : String
  base_generation =
      codec.mac source.key
        (append identity_version (append "\0" (append source.kind (append "\0" source.identity))))

  -- Whether what the cursor stands behind is no longer what the file begins with.
  unfoldable pub is_rotated : List ParsedRecord → Bool
  unfolding digest_prefix
  is_rotated parsed =
      not (
        is_empty request.cursor_digest
        || str_eq request.cursor_digest (digest_prefix codec.mac source.key parsed request.cursor))
      || ltb (length parsed) request.cursor

  unfoldable pub generation_of : List ParsedRecord → String
  unfolding base_generation is_rotated digest_prefix
  generation_of parsed =
      if is_rotated parsed
      then codec.mac source.key (
          append base_generation
            (append "\0" (digest_prefix codec.mac source.key parsed (length parsed))))
      else if is_empty request.cursor_generation
      then base_generation
      else request.cursor_generation

  abbrev pub start : Collected
  start = record {
    records = [];
    next_cursor = request.cursor;
    generation = "";
    cursor_digest = "";
    coverage = complete;
    reason = "";
  }

  -- The digest of what is read is left out if there is an error.
  abbrev pub with_digest : List ParsedRecord → Answer → Answer
  with_digest parsed (result, none) = (
    record result { cursor_digest = digest_prefix codec.mac source.key parsed result.next_cursor },
    none,
  )
  with_digest parsed (result, some e) = (result, some e)

  -- `Collect` behind the first loop.
  unfoldable pub collect_parsed : List ParsedRecord → Answer
  unfolding generation_of is_rotated collect_each digest_prefix
  collect_parsed parsed =
      let rotated = is_rotated parsed in
      let marked = if rotated then partial_result start "source_replaced" else start in
      let generation = generation_of parsed in
      with_digest parsed (
        collect_each generation rotated (if rotated then 0 else request.cursor) 0 parsed
          (record marked { generation = generation }))

  abbrev pub stopped_with : Option String → Collected
  stopped_with none = start
  stopped_with (some reason) = partial_result start reason

  unfoldable pub collect : (ℕ → Bool) → Answer
  unfolding parse_lines collect_parsed
  collect stopped =
      if not source.enabled
      then (unavailable missing "disabled", some disabled)
      else if not source.supported
      then (unavailable unknown "unsupported", some unsupported)
      else if not source.has_data || not (is_positive request.limit)
      then (unavailable missing "missing", none)
      else elim (parse_lines stopped 0 source.lines) [
        | err (reason, e) ↦ (stopped_with reason, some e)
        | ok parsed ↦ collect_parsed parsed
      ]
