-- ===== src/Adapters/Progress.antt =====
-- A collection over lines that decode ends without an error, and moves on.
use mathlib.Core.Path.{subst}
use codex_prompt_better.Base.{
  ℕ, suc, ◌+◌, ◌<◌, ◌≡◌, refl, ap, ◌∙◌, String, Bool, true, false, ◌||◌, ◌==◌, str_eq, ltb, leb,
  if◌then◌else◌, List, [], ◌∷◌, ◌++◌, Option, none, some, length, arith, Bool-cases, if-eq-ok,
  ok-injective, inl, inr, Result, ok, err, >>=-eq-ok, All,
}
use codex_prompt_better.Base.Decimal.{format_uint}
use codex_prompt_better.Base.Integers.{pos, is_positive}
use codex_prompt_better.Base.Patterns.{Unicode, to_lower, str_contains}
use codex_prompt_better.Base.Places.{length-drop}
use codex_prompt_better.Evidence.Sensitive.{sensitive_key, secret_like}
use codex_prompt_better.Evidence.Record.{
  Attributes, EvidenceError, framed, is_empty, leaks, lookup, opaque_id, validate,
}
use codex_prompt_better.Evidence.Sanitize.{sanitize}
use codex_prompt_better.Evidence.Laws.{sanitize-IsSorted}
use codex_prompt_better.Evidence.Worth.{KeepsSmall, or-eq-false, validate-filled, leaks-eq-false}
use codex_prompt_better.Adapters.Jsonl.{
  Request, Source, ParsedRecord, Collected, Answer, Codec, Jsonl,
}
use codex_prompt_better.Adapters.Resumption.{collect_parsed-IsSlice}
use codex_prompt_better.Adapters.Collect.{
  set, reached, make_record, mark, emit, collect_one, collect_each, collect_parsed, collect,
  is_rotated, generation_of, with_digest, parse_decoded, parse_source, parse_line, parse_lines,
  instants, of_evidence,
}

of_evidence-inv :
    {A : Type 0} {a : A} (r : Result EvidenceError A) → of_evidence r ≡ ok a → r ≡ ok a
of_evidence-inv (ok b) e = cc
of_evidence-inv (err f) e = absurd cc

or-inv : (a b : Bool) → (a || b) ≡ false → (a ≡ false) × (b ≡ false)
or-inv true b e = absurd cc
or-inv false b e = (refl, e)

module _ (unicode : Unicode) where
  set-leaks :
      (attributes : Attributes) (field value : String)
      → sensitive_key unicode field ≡ false
      → secret_like unicode value ≡ false
      → leaks unicode attributes ≡ false
      → leaks unicode (set attributes field value) ≡ false
  unfolding set leaks
  set-leaks [] field value s t e = or-eq-false (or-eq-false s t) refl
  set-leaks ((f, old) ∷ attributes) field value s t e =
      let (one, rest) = or-inv (sensitive_key unicode f || secret_like unicode old) _ e in
      let (sf, so) = or-inv (sensitive_key unicode f) _ one in
      elim (Bool-cases (str_eq f field)) [
        | inl b ↦ rw b (or-eq-false (or-eq-false sf t) rest)
        | inr b ↦ rw b (or-eq-false one (set-leaks attributes field value s t rest))
      ]

  trigger-insensitive : KeepsSmall unicode → sensitive_key unicode "collection_trigger" ≡ false
  unfolding sensitive_key to_lower str_contains
  trigger-insensitive keeps =
      rw
        (
          keeps "c" refl,
          keeps "o" refl,
          keeps "l" refl,
          keeps "e" refl,
          keeps "t" refl,
          keeps "i" refl,
          keeps "n" refl,
          keeps "_" refl,
          keeps "r" refl,
          keeps "g" refl,
        )
        refl

  suppressed-harmless : KeepsSmall unicode → secret_like unicode "suppressed" ≡ false
  unfolding secret_like to_lower str_contains
  suppressed-harmless keeps =
      rw
        (
          keeps "s" refl,
          keeps "u" refl,
          keeps "p" refl,
          keeps "r" refl,
          keeps "e" refl,
          keeps "d" refl,
        )
        refl

-- What a collection relies on: a key that is long enough, digests that are not empty and do not
-- look like secrets, as hexadecimal digits do not, a source that has a kind, and a clock that is
-- set.
pub record IsReady (unicode : Unicode) (codec : Codec) (source : Jsonl) (request : Request)
    : Type 0 where
  pub keeps : KeepsSmall unicode
  pub long : ltb (length source.key) 32 ≡ false
  pub named : (text : String) → is_empty (codec.mac source.key text) ≡ false
  pub hex : (text : String) → secret_like unicode (codec.mac source.key text) ≡ false
  pub kind : is_empty source.kind ≡ false
  pub clock : (request.observed_at == 0) ≡ false

module _ (unicode : Unicode) (codec : Codec) (source : Jsonl) (request : Request)
    (ready : IsReady unicode codec source request) where
  -- A parsed line that makes a valid record.
  abbrev IsGood : ParsedRecord → Type 0
  IsGood p = ((p.observed_at == 0) ≡ false) × (leaks unicode p.attributes ≡ false)

  make_record-valid :
      (generation text : String) (rotated : Bool) (n : ℕ) (item : ParsedRecord)
      → IsGood item
      → validate unicode (
          make_record unicode codec source request generation rotated
            (codec.mac source.key text)
            n
            item)
        ≡ ok tt
  unfolding make_record
  make_record-valid generation text rotated n item (t, safe) =
      validate-filled unicode _ _ item.redacted
        (record { id = ready.named text; kind = ready.kind; ingested = ready.clock; observed = t })
        refl refl
        (elim (Bool-cases
          (str_eq (lookup item.attributes "activity_class") "governance_overhead")) [
            | inl b ↦ rw b (
                set-leaks unicode item.attributes "collection_trigger" "suppressed"
                  (trigger-insensitive unicode ready.keeps)
                  (suppressed-harmless unicode ready.keeps) safe)
            | inr b ↦ rw b safe
          ])

  abbrev EndsWell : Answer → Type 0
  EndsWell answer = (end : Collected) × (answer ≡ (end, none))

  collect_each-EndsWell :
      (generation : String) (rotated : Bool) (cursor index : ℕ) (items : List ParsedRecord)
      (result : Collected)
      → All IsGood items
      → EndsWell
          (collect_each unicode codec source request generation rotated cursor index items result)
  unfolding collect_each
  collect_each-EndsWell generation rotated cursor index [] result good = (result, refl)
  collect_each-EndsWell generation rotated cursor index (item ∷ items) result (g, good) =
      elim (Bool-cases (leb (index + 1) cursor)) [
        | inl old ↦
            rw (collect_one, old)
              (collect_each-EndsWell generation rotated cursor (index + 1) items result good)
        | inr new ↦
            let text = framed (source.kind ∷ generation ∷ format_uint (index + 1) ∷ []) in
            let r =
              make_record unicode codec source request generation rotated
                (codec.mac source.key text) (index + 1) item in
            let v = make_record-valid generation text rotated (index + 1) item g in
            let records = (mark unicode codec source request r result).records ++ r ∷ [] in
            elim (Bool-cases (reached (length records) request.limit)) [
              | inl full ↦ rw (collect_one, new, opaque_id, ready.long, emit, v, full) (_, refl)
              | inr more ↦
                  rw (collect_one, new, opaque_id, ready.long, emit, v, more)
                    (collect_each-EndsWell generation rotated cursor (index + 1) items _ good)
            ]
      ]

  collect_parsed-EndsWell :
      (parsed : List ParsedRecord)
      → All IsGood parsed
      → EndsWell (collect_parsed unicode codec source request parsed)
  unfolding collect_parsed
  collect_parsed-EndsWell parsed good =
      let rotated = is_rotated unicode codec source request parsed in
      let gen = generation_of unicode codec source request parsed in
      let (end, e) =
        collect_each-EndsWell gen rotated (if rotated then 0 else request.cursor) 0 parsed _ good in
      (_, ap (with_digest unicode codec source request parsed) e)

  parse_source-leaks :
      (decoded : Option Source) (p : ParsedRecord)
      → parse_source unicode codec source request decoded ≡ ok p
      → leaks unicode p.attributes ≡ false
  unfolding parse_decoded
  parse_source-leaks none p e = absurd cc
  parse_source-leaks (some decoded) p e =
      let (_, _, e1) = >>=-eq-ok (instants unicode codec source request decoded.observed_at) _ e in
      let sanitized = sanitize unicode codec.mac source.kind source.key decoded.attributes in
      let ((clean, redacted), e2, e3) = >>=-eq-ok (of_evidence sanitized) _ e1 in
      let (all, _, _, _) =
        sanitize-IsSorted unicode codec.mac source.kind source.key decoded.attributes clean redacted
          (of_evidence-inv sanitized e2) in
      subst (λ p. leaks unicode p.attributes ≡ false) (ok-injective e3)
        (leaks-eq-false unicode codec.mac source.kind source.key ready.hex clean all)

  parse_lines-leaks :
      (stopped : ℕ → Bool) (n : ℕ) (lines : List String) (parsed : List ParsedRecord)
      → parse_lines unicode codec source request stopped n lines ≡ ok parsed
      → All (λ p. leaks unicode p.attributes ≡ false) parsed
  unfolding parse_lines parse_line
  parse_lines-leaks stopped n [] parsed e =
      let (_, e1) = if-eq-ok source.scan_failed _ _ e in
      subst (All (λ p. leaks unicode p.attributes ≡ false)) (ok-injective e1) tt
  parse_lines-leaks stopped n (line ∷ lines) parsed e =
      let (_, e1) = if-eq-ok (stopped n) _ _ e in
      let (p, e2, e3) = >>=-eq-ok (parse_line unicode codec source request line) _ e1 in
      let (ps, e4, e5) =
        >>=-eq-ok (parse_lines unicode codec source request stopped (n + 1) lines) _ e3 in
      subst (All (λ p. leaks unicode p.attributes ≡ false)) (ok-injective e5)
        (parse_source-leaks (codec.decode line) p e2, parse_lines-leaks stopped (n + 1) lines ps e4)

  All-both :
      (P Q : ParsedRecord → Type 0) (ps : List ParsedRecord)
      → All P ps
      → All Q ps
      → All (λ p. P p × Q p) ps
  All-both P Q [] a b = tt
  All-both P Q (p ∷ ps) (x, a) (y, b) = ((x, y), All-both P Q ps a b)

  collect-runs :
      (stopped : ℕ → Bool) (parsed : List ParsedRecord)
      → source.enabled ≡ true
      → source.supported ≡ true
      → source.has_data ≡ true
      → is_positive request.limit ≡ true
      → parse_lines unicode codec source request stopped 0 source.lines ≡ ok parsed
      → collect unicode codec source request stopped
        ≡ collect_parsed unicode codec source request parsed
  unfolding collect
  collect-runs stopped parsed on able filled some_limit e =
      rw (collect, on, able, filled, some_limit, e) refl

  -- If a source is enabled, supported and has data, the limit is positive, what the collection
  -- relies on holds, all lines are read and the lines' instants are not the zero time, then the
  -- collection ends without an error. If moreover the lines before the cursor are those that its
  -- digest is of, and there is a line behind the cursor, then the cursor moves on.
  pub collect-progress :
      (stopped : ℕ → Bool) (n : ℕ) (parsed : List ParsedRecord)
      → source.enabled ≡ true
      → source.supported ≡ true
      → source.has_data ≡ true
      → request.limit ≡ pos (suc n)
      → parse_lines unicode codec source request stopped 0 source.lines ≡ ok parsed
      → All (λ p. (p.observed_at == 0) ≡ false) parsed
      → (end : Collected) × (collect unicode codec source request stopped ≡ (end, none))
        × (is_rotated unicode codec source request parsed ≡ false
            → request.cursor < length parsed
            → request.cursor < end.next_cursor)
  collect-progress stopped n parsed on able filled l e times =
      let good = All-both _ _ parsed times (parse_lines-leaks stopped 0 source.lines parsed e) in
      let (end, ran) = collect_parsed-EndsWell parsed good in
      (
        end,
        collect-runs stopped parsed on able filled (rw l (ground arith)) e ∙ ran,
        λ fresh behind.
            let slice =
              collect_parsed-IsSlice unicode codec source request n parsed end l fresh ran in
            omega (arith, slice.next, length-drop request.cursor parsed, behind),
      )
