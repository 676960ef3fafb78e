-- ===== src/Adapters/Resumption.antt =====
-- What one collection gives, and what two of them in a row.
use mathlib.Core.Path.{subst}
use codex_prompt_better.Base.{
  ℕ, suc, ◌+◌, ◌≤◌, ◌≡◌, refl, sym, ap, ◌∙◌, String, false, ltb, List, ◌++◌, map, none, some,
  length, take, drop, arith, min, eq_iff,
}
use codex_prompt_better.Base.Integers.{pos}
use codex_prompt_better.Base.Places.{numbered, length-drop, numbered-moved, map-append}
use codex_prompt_better.Base.Patterns.{Unicode}
use codex_prompt_better.Evidence.Record.{is_empty}
use codex_prompt_better.Adapters.Jsonl.{Request, ParsedRecord, Collected, Answer, Codec, Jsonl}
use codex_prompt_better.Adapters.Collect.{
  digest_prefix, is_rotated, generation_of, with_digest, start, make_record, collect_each,
  collect_parsed,
}
use codex_prompt_better.Adapters.Slices.{
  some≢none, record_of, collect_each-drop, collect_each-Extends,
}

module _ (unicode : Unicode) (codec : Codec) (source : Jsonl) where
  -- An answer is that of the loop, with the digest.
  with_digest-inv :
      (request : Request) (parsed : List ParsedRecord) (answer : Answer) (end : Collected)
      → with_digest unicode codec source request parsed answer ≡ (end, none)
      → (last : Collected) × (answer ≡ (last, none))
        × (end ≡ record last {
          cursor_digest = digest_prefix codec.mac source.key parsed last.next_cursor;
        })
  with_digest-inv request parsed (last, none) end e = (last, refl, sym (ap (λ a. a.0) e))
  with_digest-inv request parsed (last, some f) end e = absurd (some≢none f (ap (λ a. a.1) e))

  -- The next records behind the cursor, at most as many as the limit, and where the reader stands
  -- behind them.
  pub record IsSlice (request : Request) (limit : ℕ) (parsed : List ParsedRecord) (end : Collected)
      : Type 0 where
    pub records :
        end.records
        ≡ map
            (record_of unicode codec source request
              (generation_of unicode codec source request parsed)
              false)
            (take limit (numbered request.cursor (drop request.cursor parsed)))
    pub next : end.next_cursor ≡ request.cursor + min limit (length (drop request.cursor parsed))
    pub digest : end.cursor_digest ≡ digest_prefix codec.mac source.key parsed end.next_cursor
    pub same : end.generation ≡ generation_of unicode codec source request parsed

  -- The result that the second loop begins with.
  abbrev begun : Request → List ParsedRecord → Collected
  begun request parsed = record (start unicode codec source request) {
    generation = generation_of unicode codec source request parsed;
  }

  collect_parsed-fresh :
      (request : Request) (parsed : List ParsedRecord)
      → is_rotated unicode codec source request parsed ≡ false
      → collect_parsed unicode codec source request parsed
        ≡ with_digest unicode codec source request parsed (
            collect_each unicode codec source request
              (generation_of unicode codec source request parsed)
              false
              request.cursor
              0
              parsed
              (begun request parsed))
  unfolding collect_parsed
  collect_parsed-fresh request parsed fresh = rw (collect_parsed, fresh) refl

  -- If the lines before the cursor are those that its digest is of, and the collection ends without
  -- an error, then it gives exactly the next records behind the cursor, at most as many as the
  -- limit, each made of its line and its place; the new cursor stands behind the last of them, and
  -- the digest is that of the lines before the new cursor.
  pub collect_parsed-IsSlice :
      (request : Request) (n : ℕ) (parsed : List ParsedRecord) (end : Collected)
      → request.limit ≡ pos (suc n)
      → is_rotated unicode codec source request parsed ≡ false
      → collect_parsed unicode codec source request parsed ≡ (end, none)
      → IsSlice request (suc n) parsed end
  collect_parsed-IsSlice request n parsed end l fresh e =
      let gen = generation_of unicode codec source request parsed in
      let (last, ran, same) =
        with_digest-inv request parsed _ end
          (sym (collect_parsed-fresh request parsed fresh) ∙ e) in
      let passed =
        collect_each-drop unicode codec source request gen false request.cursor 0 request.cursor
          parsed (begun request parsed) (omega arith) in
      let all =
        collect_each-Extends unicode codec source request gen false (suc n) request.cursor n
          request.cursor (drop request.cursor parsed) (begun request parsed) last l (omega arith)
          (omega arith) refl (sym passed ∙ ran) in
      subst (IsSlice request (suc n) parsed) (sym same)
        (record { records = all.records; next = all.next; digest = refl; same = all.same })

  -- What the next request takes over from an answer.
  abbrev pub resumed : Request → Collected → ℕ → Request
  resumed request end limit = record request {
    cursor = end.next_cursor;
    cursor_generation = end.generation;
    cursor_digest = end.cursor_digest;
    limit = pos limit;
  }

  abbrev pub limited : Request → ℕ → Request
  limited request limit = record request { limit = pos limit }

  not_rotated-le :
      (request : Request) (parsed : List ParsedRecord)
      → is_rotated unicode codec source request parsed ≡ false
      → request.cursor ≤ length parsed
  unfolding is_rotated
  not_rotated-le request parsed fresh = ground arith

  resumed-fresh :
      (request : Request) (end : Collected) (limit : ℕ) (parsed : List ParsedRecord)
      → end.cursor_digest ≡ digest_prefix codec.mac source.key parsed end.next_cursor
      → end.next_cursor ≤ length parsed
      → is_rotated unicode codec source (resumed request end limit) parsed ≡ false
  unfolding is_rotated
  resumed-fresh request end limit parsed d l =
      let same =
        (eq_iff end.cursor_digest (digest_prefix codec.mac source.key parsed end.next_cursor)).1
          d in
      let less : ltb (length parsed) end.next_cursor ≡ false = ground arith in
      rw (is_rotated, same, less) (ground arith)

  resumed-generation :
      (request : Request) (end : Collected) (limit : ℕ) (parsed : List ParsedRecord)
      → is_rotated unicode codec source (resumed request end limit) parsed ≡ false
      → is_empty end.generation ≡ false
      → generation_of unicode codec source (resumed request end limit) parsed ≡ end.generation
  unfolding generation_of
  resumed-generation request end limit parsed f g = rw (generation_of, f, g) refl

  limited-generation :
      (request : Request) (limit : ℕ) (parsed : List ParsedRecord)
      → generation_of unicode codec source (limited request limit) parsed
        ≡ generation_of unicode codec source request parsed
  unfolding generation_of is_rotated
  limited-generation request limit parsed = refl

  resumed-record_of :
      (request : Request) (end : Collected) (limit : ℕ) (generation : String)
      → record_of unicode codec source (resumed request end limit) generation false
        ≡ record_of unicode codec source request generation false
  unfolding make_record
  resumed-record_of request end limit generation = refl

  limited-record_of :
      (request : Request) (limit : ℕ) (generation : String)
      → record_of unicode codec source (limited request limit) generation false
        ≡ record_of unicode codec source request generation false
  unfolding make_record
  limited-record_of request limit generation = refl

  limited-fresh :
      (request : Request) (limit : ℕ) (parsed : List ParsedRecord)
      → is_rotated unicode codec source (limited request limit) parsed
        ≡ is_rotated unicode codec source request parsed
  unfolding is_rotated
  limited-fresh request limit parsed = refl

  -- If the lines before the cursor are those that its digest is of, and a collection, the one that
  -- takes over its cursor, digest and generation, and the one of both limits together all end
  -- without an error, then the last gives the records of the first two in order, and the cursor and
  -- digest of the second. The generation must not be the empty text.
  pub collect_parsed-resumed :
      (request : Request) (m n : ℕ) (parsed : List ParsedRecord) (first second whole : Collected)
      → request.limit ≡ pos (suc m)
      → is_rotated unicode codec source request parsed ≡ false
      → is_empty first.generation ≡ false
      → collect_parsed unicode codec source request parsed ≡ (first, none)
      → collect_parsed unicode codec source (resumed request first (suc n)) parsed ≡ (second, none)
      → collect_parsed unicode codec source (limited request (suc m + suc n)) parsed ≡ (whole, none)
      → (whole.records ≡ first.records ++ second.records)
        × (whole.next_cursor ≡ second.next_cursor)
        × (whole.cursor_digest ≡ second.cursor_digest)
  collect_parsed-resumed request m n parsed first second whole l fresh named e1 e2 e3 =
      let s1 = collect_parsed-IsSlice request m parsed first l fresh e1 in
      let c = request.cursor in
      let all = suc (m + suc n) in
      let moved = c + min (suc m) (length (drop c parsed)) in
      let both = limited request (suc m + suc n) in
      let gen = generation_of unicode codec source request parsed in
      let fits : first.next_cursor ≤ length parsed =
        omega (arith, s1.next, length-drop c parsed, not_rotated-le request parsed fresh) in
      let fresh2 = resumed-fresh request first (suc n) parsed s1.digest fits in
      let s2 =
        collect_parsed-IsSlice (resumed request first (suc n)) n parsed second refl fresh2 e2 in
      let s3 =
        collect_parsed-IsSlice both (m + suc n) parsed whole (ap pos (omega arith))
          (limited-fresh request (suc m + suc n) parsed ∙ fresh) e3 in
      let next : whole.next_cursor ≡ second.next_cursor = omega (
        arith,
        s1.next,
        s2.next,
        s3.next,
        length-drop c parsed,
        length-drop first.next_cursor parsed,
        not_rotated-le request parsed fresh,
      ) in
      let all_records =
        ap (λ f. map f (take all (numbered c (drop c parsed))))
          (ap (λ g. record_of unicode codec source both g false)
              (limited-generation request _ parsed)
            ∙ limited-record_of request _ gen) in
      let later_records =
        ap (λ f. map f (take (suc n) (numbered first.next_cursor (drop first.next_cursor parsed))))
          (ap (λ g. record_of unicode codec source (resumed request first (suc n)) g false)
              (resumed-generation request first (suc n) parsed fresh2 named ∙ s1.same)
            ∙ resumed-record_of request first (suc n) gen) in
      let made = record_of unicode codec source request gen false in
      let total : all ≡ suc m + suc n = omega arith in
      let split =
        ap (λ k. map made (take k (numbered c (drop c parsed)))) total
        ∙ ap (map made) (numbered-moved c (suc m) (suc n) parsed)
        ∙ map-append made (take (suc m) (numbered c (drop c parsed))) _ in
      let rest_records =
        s2.records
        ∙ later_records
        ∙ ap (λ k. map made (take (suc n) (numbered k (drop k parsed)))) s1.next in
      (
        s3.records
            ∙ all_records
            ∙ split
            ∙ ap (λ r. r ++ map made (take (suc n) (numbered moved (drop moved parsed))))
                (sym s1.records)
            ∙ ap (λ r. first.records ++ r) (sym rest_records),
        next,
        s3.digest ∙ ap (digest_prefix codec.mac source.key parsed) next ∙ sym s2.digest,
      )
