-- ===== src/Adapters/Slices.antt =====
-- Which records `Collect` gives: the next ones behind the cursor, up to the limit.
use mathlib.Core.Path.{subst}
use mathlib.Core.List.{append-nil, append_assoc}
use codex_prompt_better.Base.{
  ℕ, zero, suc, ◌+◌, ◌≤◌, ◌≡◌, ◌≢◌, refl, sym, ap, ◌∙◌, String, Bool, true, false, ◌==◌, ==_iff,
  leb, List, [], ◌∷◌, ◌++◌, map, none, some, length, length-append, take, drop, arith, Bool-cases,
  Result-cases, ltb, inl, inr, min,
}
use codex_prompt_better.Base.Decimal.{format_uint}
use codex_prompt_better.Base.Integers.{pos}
use codex_prompt_better.Base.Places.{numbered}
use codex_prompt_better.Base.Patterns.{Unicode}
use codex_prompt_better.Evidence.Record.{Record, framed, validate, opaque_id, is_incomplete}
use codex_prompt_better.Adapters.Jsonl.{
  Request, ParsedRecord, Collected, CollectError, Answer, Codec, Jsonl,
}
use codex_prompt_better.Adapters.Collect.{
  Step, follow, make_record, mark, emit, collect_one, collect_each,
}

pub some≢none : {A : Type 0} (a : A) → some a ≢ none
some≢none a e = cc

module _ (unicode : Unicode) (codec : Codec) (source : Jsonl) (request : Request) where
  -- A result that has one record more.
  abbrev IsNext : Collected → Record → ℕ → Collected → Type 0
  IsNext result r sequence k =
      (k.records ≡ result.records ++ r ∷ [])
      × (k.next_cursor ≡ sequence)
      × (k.generation ≡ result.generation)

  data Emitted (limit : ℕ) (r : Record) (sequence : ℕ) (result : Collected) : Step → Type 0 where
    failed :
        (x : Collected) (e : CollectError) → Emitted limit r sequence result (Step.stop (x, some e))
    full :
        (k : Collected)
        → IsNext result r sequence k
        → length k.records ≡ limit
        → Emitted limit r sequence result (Step.stop (k, none))
    more :
        (k : Collected)
        → IsNext result r sequence k
        → length k.records ≢ limit
        → Emitted limit r sequence result (Step.go_on k)

  mark-keeps :
      (r : Record) (result : Collected)
      → let marked = mark unicode codec source request r result in
        (marked.records ≡ result.records) × (marked.generation ≡ result.generation)
  unfolding mark
  mark-keeps r result = elim (Bool-cases (is_incomplete r.lineage)) [
    | inl b ↦ rw (mark, b) (refl, refl)
    | inr b ↦ rw (mark, b) (refl, refl)
  ]

  abbrev kept : Record → ℕ → Collected → Collected
  kept r sequence result =
      let marked = mark unicode codec source request r result in
      record marked { records = marked.records ++ r ∷ []; next_cursor = sequence }

  emit-Emitted :
      (limit : ℕ) (r : Record) (sequence : ℕ) (result : Collected)
      → request.limit ≡ pos limit
      → Emitted limit r sequence result (emit unicode codec source request r sequence result)
  unfolding emit
  emit-Emitted limit r sequence result l = elim (Result-cases (validate unicode r)) [
    | inl (e, v) ↦ rw (emit, v) (Emitted.failed _ _)
    | inr (_, v) ↦
        let (same, still) = mark-keeps r result in
        let k = kept r sequence result in
        let next : IsNext result r sequence k = (ap (λ rs. rs ++ r ∷ []) same, refl, still) in
        elim (Bool-cases (length k.records == limit)) [
          | inl b ↦ rw (emit, v, l, b) (Emitted.full k next ((==_iff (length k.records) limit).0 b))
          | inr b ↦
              rw (emit, v, l, b)
                (Emitted.more k next (λ eq. cc ((==_iff (length k.records) limit).1 eq, b)))
        ]
  ]

  module _ (generation : String) (rotated : Bool) where
    -- The record of a parsed line at its place.
    abbrev pub record_of : ℕ × ParsedRecord → Record
    record_of (n, item) =
        make_record unicode codec source request generation rotated
          (codec.mac source.key (framed (source.kind ∷ generation ∷ format_uint n ∷ []))) n item

    collect_one-Emitted :
        (limit cursor index : ℕ) (item : ParsedRecord) (result : Collected)
        → request.limit ≡ pos limit
        → cursor ≤ index
        → Emitted limit (record_of (index + 1, item)) (index + 1) result (
            collect_one unicode codec source request generation rotated cursor
              (index + 1)
              item
              result)
    unfolding collect_one opaque_id
    collect_one-Emitted limit cursor index item result l c =
        let new : leb (index + 1) cursor ≡ false = ground arith in
        elim (Bool-cases (ltb (length source.key) 32)) [
          | inl b ↦ rw (collect_one, new, opaque_id, b) (Emitted.failed _ _)
          | inr b ↦
              rw (collect_one, new, opaque_id, b)
                (emit-Emitted limit (record_of (index + 1, item)) (index + 1) result l)
        ]

    abbrev each : ℕ → ℕ → List ParsedRecord → Collected → Answer
    each = collect_each unicode codec source request generation rotated

    -- The items up to the cursor are passed over.
    pub collect_each-drop :
        (k index cursor : ℕ) (items : List ParsedRecord) (result : Collected)
        → index + k ≡ cursor
        → each cursor index items result ≡ each cursor cursor (drop k items) result
    unfolding collect_each collect_one
    collect_each-drop zero index cursor items result e =
        ap (λ i. each cursor i items result) (omega (arith, e))
    collect_each-drop (suc k) index cursor [] result e = refl
    collect_each-drop (suc k) index cursor (item ∷ items) result e =
        let old : leb (index + 1) cursor ≡ true = ground arith in
        rw (collect_one, old)
          (collect_each-drop k (index + 1) cursor items result (omega (arith, e)))

    longer :
        (result k : Collected) (r : Record)
        → k.records ≡ result.records ++ r ∷ []
        → length k.records ≡ length result.records + 1
    longer result k r a = ap length a ∙ length-append result.records (r ∷ [])

    -- What a result becomes by the records of some items.
    pub record Extends (room index : ℕ) (items : List ParsedRecord) (result end : Collected)
        : Type 0 where
      pub records : end.records ≡ result.records ++ map record_of (take room (numbered index items))
      pub next : end.next_cursor ≡ index + min room (length items)
      pub same : end.generation ≡ result.generation

    Emitted-Extends :
        (limit cursor room index : ℕ) (item : ParsedRecord) (items : List ParsedRecord)
        (result end : Collected) (step : Step)
        → Emitted limit (record_of (index + 1, item)) (index + 1) result step
        → limit ≡ length result.records + suc room
        → ((room : ℕ) (k : Collected)
            → limit ≡ length k.records + suc room
            → k.next_cursor ≡ index + 1
            → each cursor (index + 1) items k ≡ (end, none)
            → Extends (suc room) (index + 1) items k end)
        → follow unicode codec source request generation rotated step
            (λ k. each cursor (index + 1) items k)
          ≡ (end, none)
        → Extends (suc room) index (item ∷ items) result end
    Emitted-Extends limit cursor room index item items result end step (Emitted.failed x f) n ih e =
        absurd (some≢none f (ap (λ a. a.1) e))
    Emitted-Extends limit cursor zero index item items result end step (Emitted.full k (a, b, c) h)
          n ih e =
        subst (Extends 1 index (item ∷ items) result) (ap (λ x. x.0) e)
          (record { records = a; next = b ∙ omega arith; same = c })
    Emitted-Extends limit cursor (suc room) index item items result end step
          (Emitted.full k (a, b, c) h) n ih e =
        absurd (omega (arith, longer result k _ a, h, n))
    Emitted-Extends limit cursor zero index item items result end step (Emitted.more k (a, b, c) h)
          n ih e =
        absurd (h (omega (arith, longer result k _ a, n)))
    Emitted-Extends limit cursor (suc room) index item items result end step
          (Emitted.more k (a, b, c) h) n ih e =
        let later = ih room k (omega (arith, n, longer result k _ a)) b e in
        record {
          records =
              later.records
              ∙ ap (λ rs. rs ++ map record_of (take (suc room) (numbered (index + 1) items))) a
              ∙ append_assoc result.records (record_of (index + 1, item) ∷ []) _;
          next = later.next ∙ omega arith;
          same = later.same ∙ c;
        }

    pub collect_each-Extends :
        (limit cursor room index : ℕ) (items : List ParsedRecord) (result end : Collected)
        → request.limit ≡ pos limit
        → cursor ≤ index
        → limit ≡ length result.records + suc room
        → result.next_cursor ≡ index
        → each cursor index items result ≡ (end, none)
        → Extends (suc room) index items result end
    unfolding collect_each
    collect_each-Extends limit cursor room index [] result end l c n i e =
        subst (Extends (suc room) index [] result) (ap (λ a. a.0) e) (record {
          records = sym (append-nil result.records);
          next = i ∙ omega arith;
          same = refl;
        })
    collect_each-Extends limit cursor room index (item ∷ items) result end l c n i e =
        Emitted-Extends limit cursor room index item items result end _
          (collect_one-Emitted limit cursor index item result l c) n
          (λ more k m j f.
            collect_each-Extends limit cursor more (index + 1) items k end l (omega (arith, c)) m j
              f)
          e
