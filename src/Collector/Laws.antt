-- ===== src/Collector/Laws.antt =====
-- What a run may do, whatever its collaborators answer.
use codex_prompt_better.Base.{
  ℕ, zero, suc, ◌+◌, ◌≤◌, ◌<◌, ◌≡◌, refl, ◌⊎◌, inl, inr, Bool, true, false, [], ◌∷◌, ◌++◌, Option,
  none, some, arith, All, All-append, tally, tally-append, Bool-cases, Option-cases, String, ◌==◌,
  ◌||◌,
}
use codex_prompt_better.Collector.Run.{
  SourceError, Collected, Options, Effect, collect, wait, quarantine, commit, release, Answers,
  permanent, is_unavailable, backoff, store_batch, attempts_loop, run_leased, run, nothing,
}

abbrev pub is_collect : Effect → Bool
is_collect (collect a) = true
is_collect _ = false

-- The effects that end a batch.
abbrev pub is_final : Effect → Bool
is_final (commit b) = true
is_final (quarantine e a) = true
is_final _ = false

abbrev pub is_release : Effect → Bool
is_release (release f) = true
is_release _ = false

-- The errors at which the loop does not retry in an attempt.
abbrev pub may_continue : Option SourceError → Bool
may_continue none = true
may_continue (some e) = is_unavailable e

module _ (answers : Answers) (options : Options) (fence : String) where
  abbrev InRange : ℕ → Type 0
  InRange a = (1 ≤ a) × (a ≤ options.max_attempts)

  -- A commit is made under the lease, which was renewed, and stores the records of an attempt that
  -- did not fail, with the cursor that it reached. Only a permanent error or the last attempt is
  -- quarantined, and only an attempt before the last is followed by a wait, which doubles with each.
  abbrev pub IsLawful : Effect → Type 0
  IsLawful (commit b) =
      (answers.renewed ≡ some true)
      × (b.fence ≡ fence)
      × ((a : ℕ) × (1 ≤ a)
          × (a ≤ options.max_attempts)
          × (may_continue (answers.collected a).1 ≡ true)
          × (b.cursor ≡ (answers.collected a).0.next_cursor)
          × (b.records ≡ (answers.collected a).0.records)
          × (0 < b.records))
  IsLawful (quarantine e a) =
      ((answers.collected a).1 ≡ some e)
      × (is_unavailable e ≡ false)
      × ((permanent e ≡ true) ⊎ (a ≡ options.max_attempts))
  IsLawful (collect a) = (1 ≤ a) × (a ≤ options.max_attempts)
  IsLawful (wait d) =
      (a : ℕ) × (1 ≤ a) × (a < options.max_attempts) × (d ≡ backoff options.base_backoff a)
  IsLawful (release f) = f ≡ fence
  IsLawful _ = Unit

  store_batch-IsLawful :
      (cursor a : ℕ) (err : Option SourceError)
      → InRange a
      → may_continue err ≡ true
      → (answers.collected a).1 ≡ err
      → All IsLawful (store_batch answers options fence cursor (answers.collected a).0 err).effects
  unfolding store_batch
  store_batch-IsLawful cursor a err r c e =
      elim (Bool-cases ((answers.collected a).0.records == 0)) [
        | inl empty ↦ rw (store_batch, empty) tt
        | inr some_records ↦ elim (Option-cases answers.renewed) [
          | inl failed ↦ rw (store_batch, some_records, failed) (tt, tt)
          | inr (b, said) ↦ elim (Bool-cases b) [
            | inr lost ↦
                let lost_it : answers.renewed ≡ some false = cc in
                rw (store_batch, some_records, lost_it) (tt, tt)
            | inl kept ↦
                let kept_it : answers.renewed ≡ some true = cc in
                elim (Option-cases (answers.identity (answers.collected a).0 cursor)) [
                  | inl failed ↦ rw (store_batch, some_records, kept_it, failed) (tt, tt)
                  | inr (id, made) ↦
                      rw (store_batch, some_records, kept_it, made)
                        (tt, ((refl, refl, (a, r.0, r.1, rw e c, refl, refl, ground arith)), tt))
                ]
          ]
        ]
      ]

  store_batch-final :
      (cursor : ℕ) (result : Collected) (err : Option SourceError)
      → (tally is_final (store_batch answers options fence cursor result err).effects ≤ 1)
        × (tally is_collect (store_batch answers options fence cursor result err).effects ≡ 0)
        × (tally is_release (store_batch answers options fence cursor result err).effects ≡ 0)
  unfolding store_batch
  store_batch-final cursor result err = ground arith

  attempts_loop-IsLawful :
      (left attempt cursor : ℕ)
      → 1 ≤ attempt
      → attempt + left ≡ options.max_attempts + 1
      → All IsLawful (attempts_loop answers options left attempt fence cursor).effects
  unfolding attempts_loop
  attempts_loop-IsLawful zero attempt cursor p e = unfold store_batch in tt
  attempts_loop-IsLawful (suc left) attempt cursor p e =
      let r : InRange attempt = (p, omega arith) in
      let rest = attempts_loop-IsLawful left (attempt + 1) cursor (omega arith) (omega arith) in
      elim (Option-cases (answers.collected attempt).1) [
        | inl fine ↦
            rw (attempts_loop, fine) (r, store_batch-IsLawful cursor attempt none r refl fine)
        | inr (x, failed) ↦ elim (Bool-cases (is_unavailable x)) [
          | inl gone ↦
              rw (attempts_loop, failed, gone)
                (r, store_batch-IsLawful cursor attempt (some x) r gone failed)
          | inr here ↦ elim (Bool-cases (permanent x || attempt == options.max_attempts)) [
            | inl last ↦
                rw (attempts_loop, failed, here, last) (r, ((failed, here, ground arith), tt))
            | inr again ↦ elim (Bool-cases (answers.waited attempt)) [
              | inl waited ↦
                  rw (attempts_loop, failed, here, again, waited)
                    (r, ((attempt, p, ground arith, refl), rest))
              | inr stopped ↦
                  rw (attempts_loop, failed, here, again, stopped)
                    (r, ((attempt, p, ground arith, refl), tt))
            ]
          ]
        ]
      ]

  attempts_loop-counts :
      (left attempt cursor : ℕ)
      → (tally is_final (attempts_loop answers options left attempt fence cursor).effects ≤ 1)
        × (tally is_collect (attempts_loop answers options left attempt fence cursor).effects
            ≤ left)
        × (tally is_release (attempts_loop answers options left attempt fence cursor).effects ≡ 0)
  unfolding attempts_loop
  attempts_loop-counts zero attempt cursor = ground (arith, store_batch-final cursor nothing none)
  attempts_loop-counts (suc left) attempt cursor = ground (
    arith,
    attempts_loop-counts left (attempt + 1) cursor,
    store_batch-final cursor (answers.collected attempt).0 none,
    store_batch-final cursor (answers.collected attempt).0 (answers.collected attempt).1,
  )

-- The lease that a run holds, if it gets one.
abbrev pub lease : Answers → Option String
lease answers = elim answers.acquired [
  | none ↦ none
  | some (fence, false) ↦ none
  | some (fence, true) ↦ some fence
]

run_leased-IsLawful :
    (answers : Answers) (options : Options) (fence : String)
    → All (IsLawful answers options fence) (run_leased answers options fence).effects
unfolding run_leased
run_leased-IsLawful answers options fence = elim (Option-cases answers.cursor) [
  | inl failed ↦ rw (run_leased, failed) (tt, tt)
  | inr (cursor, read) ↦ elim (Option-cases answers.generation) [
    | inl failed ↦ rw (run_leased, read, failed) (tt, tt)
    | inr (generation, was) ↦ elim (Option-cases answers.digest) [
      | inl failed ↦ rw (run_leased, read, was, failed) (tt, tt)
      | inr (digest, had) ↦
          let t =
            attempts_loop-IsLawful answers options fence options.max_attempts 1 cursor (omega arith)
              (omega arith) in
          simp (run_leased, read, was, had) (tt, t)
    ]
  ]
]

run_leased-counts :
    (answers : Answers) (options : Options) (fence : String)
    → (tally is_final (run_leased answers options fence).effects ≤ 1)
      × (tally is_collect (run_leased answers options fence).effects ≤ options.max_attempts)
      × (tally is_release (run_leased answers options fence).effects ≡ 0)
unfolding run_leased
run_leased-counts answers options fence = elim (Option-cases answers.cursor) [
  | inl failed ↦ ground arith
  | inr (cursor, read) ↦
      let t = attempts_loop-counts answers options fence options.max_attempts 1 cursor in
      ground arith
]

-- Whatever the lease store, the store and the adapter answer, everything that a run which got the
-- lease under a fence does is lawful: a commit is made only once the lease was renewed, carries that
-- fence, and stores the records of an attempt that did not fail, at least one, with the cursor that
-- attempt reached; only an error that is permanent, or the error of the last attempt, is
-- quarantined; only an attempt before the last is followed by a wait, by the backoff of some attempt; attempts
-- are numbered from 1 to the limit; and the lease is released under its own fence.
pub run-IsLawful :
    (answers : Answers) (options : Options) (fence : String)
    → answers.acquired ≡ some (fence, true)
    → All (IsLawful answers options fence) (run answers options).effects
unfolding run
run-IsLawful answers options fence e =
    rw (run, e)
      (
        tt,
        All-append (IsLawful answers options fence) (run_leased answers options fence).effects
            (release fence ∷ []) (run_leased-IsLawful answers options fence) (refl, tt),
      )

-- Whatever the collaborators answer, a run commits or quarantines at most once in all, calls the
-- adapter at most as often as the limit allows, and releases the lease exactly once if it got it and
-- never otherwise; without the lease it does not call the adapter at all.
pub run-counts :
    (answers : Answers) (options : Options)
    → (tally is_final (run answers options).effects ≤ 1)
      × (tally is_collect (run answers options).effects ≤ options.max_attempts)
      × (tally is_release (run answers options).effects
          ≡ elim (lease answers) [ none ↦ 0 | some f ↦ 1 ])
      × (lease answers ≡ none → tally is_collect (run answers options).effects ≡ 0)
unfolding run
run-counts answers options = elim (Option-cases answers.acquired) [
  | inl failed ↦ ground arith
  | inr ((fence, got), was) ↦
      let t = run_leased-counts answers options fence in
      let u : (p : Effect → Bool)
          → tally p ((run_leased answers options fence).effects ++ release fence ∷ [])
            ≡ tally p (run_leased answers options fence).effects + tally p (release fence ∷ []) =
        λ p. tally-append p (run_leased answers options fence).effects (release fence ∷ []) in
      elim (Bool-cases got) [
        | inl had ↦ ground (arith, u is_final, u is_collect, u is_release)
        | inr lost ↦ ground arith
      ]
]
