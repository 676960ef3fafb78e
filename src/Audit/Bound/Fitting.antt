-- ===== src/Audit/Bound/Fitting.antt =====
-- The loop ends, and its result fits.
use codex_prompt_better.Base.{
  ℕ, zero, suc, ◌+◌, ◌≤◌, ◌<◌, ◌≡◌, refl, ◌∙◌, leb, Option, none, some, arith, inl, inr,
  Option-cases, Bool-cases,
}
use codex_prompt_better.Audit.Bound.{
  Parts, AuditResult, Bounding, budget_exhausted, encode_failed, omit_one, droppable, bound_loop,
  bound_result, go_on,
}
use codex_prompt_better.Audit.Bound.Laws.{Keeps, Attempt, omit_one-Attempt}

module _ (parts : Parts) (size : AuditResult parts → Option ℕ)
    (clone : AuditResult parts → Option (AuditResult parts)) (limit : ℕ) where
  -- A result that is left of another by omissions, all of them counted.
  pub record IsLeft (r s : AuditResult parts) : Type 0 where
    pub keeps : Keeps parts r s
    pub counted : s.omitted_count + droppable parts s ≡ r.omitted_count + droppable parts r

  -- How the bound may end: with a result that fits; or without one, when what is left cannot be
  -- encoded, or has nothing more to leave out and is still too long.
  pub data Bounded (r : AuditResult parts) : Bounding parts → Type 0 where
    fitting :
        (s : AuditResult parts) (n : ℕ)
        → size s ≡ some n
        → n ≤ limit
        → IsLeft r s
        → Bounded r (Bounding.bounded s)
    exhausted :
        (s : AuditResult parts) (n : ℕ)
        → size s ≡ some n
        → limit < n
        → droppable parts s ≡ 0
        → IsLeft r s
        → Bounded r (Bounding.failed budget_exhausted)
    unencodable :
        (s : AuditResult parts)
        → size s ≡ none
        → IsLeft r s
        → Bounded r (Bounding.failed encode_failed)

  IsLeft-trans : (r s t : AuditResult parts) → IsLeft r s → IsLeft s t → IsLeft r t
  IsLeft-trans r s t a b = record {
    keeps = record {
      findings = b.keeps.findings ∙ a.keeps.findings;
      metrics = b.keeps.metrics ∙ a.keeps.metrics;
      guardrails = b.keeps.guardrails ∙ a.keeps.guardrails;
      recommendations = b.keeps.recommendations ∙ a.keeps.recommendations;
      others = b.keeps.others ∙ a.keeps.others;
    };
    counted = b.counted ∙ a.counted;
  }

  IsLeft-refl : (r : AuditResult parts) → IsLeft r r
  IsLeft-refl r = record {
    keeps = record {
      findings = refl;
      metrics = refl;
      guardrails = refl;
      recommendations = refl;
      others = refl;
    };
    counted = refl;
  }

  Bounded-trans :
      (r s : AuditResult parts) (b : Bounding parts) → IsLeft r s → Bounded s b → Bounded r b
  Bounded-trans r s _ l (Bounded.fitting t n e f m) =
      Bounded.fitting t n e f (IsLeft-trans r s t l m)
  Bounded-trans r s _ l (Bounded.exhausted t n e f z m) =
      Bounded.exhausted t n e f z (IsLeft-trans r s t l m)
  Bounded-trans r s _ l (Bounded.unencodable t e m) =
      Bounded.unencodable t e (IsLeft-trans r s t l m)

  -- A round.
  go_on-Bounded :
      (r : AuditResult parts) (n : ℕ) (loop : AuditResult parts → Bounding parts)
      (o : Option (AuditResult parts))
      → size r ≡ some n
      → limit < n
      → Attempt parts (droppable parts r) r o
      → ((s : AuditResult parts) → droppable parts s < droppable parts r → Bounded s (loop s))
      → Bounded r (go_on parts size clone limit loop o)
  go_on-Bounded r n loop none e f (Attempt.empty z) ih = Bounded.exhausted r n e f z (IsLeft-refl r)
  go_on-Bounded r n loop (some _) e f (Attempt.lighter s d c k) ih =
      Bounded-trans r s (loop s) (record { keeps = k; counted = omega (arith, d, c) })
        (ih s (omega (arith, d)))

  bound_loop-Bounded :
      (fuel : ℕ) (r : AuditResult parts)
      → droppable parts r < fuel
      → Bounded r (bound_loop parts size clone limit fuel r)
  unfolding bound_loop
  bound_loop-Bounded zero r f = absurd (omega arith)
  bound_loop-Bounded (suc fuel) r f = elim (Option-cases (size r)) [
    | inl cannot ↦ rw (bound_loop, cannot) (Bounded.unencodable r cannot (IsLeft-refl r))
    | inr (n, e) ↦ elim (Bool-cases (leb n limit)) [
      | inl b ↦ rw (bound_loop, e, b) (Bounded.fitting r n e (ground arith) (IsLeft-refl r))
      | inr b ↦
          rw (bound_loop, e, b)
            (go_on-Bounded r n (bound_loop parts size clone limit fuel) (omit_one parts r) e
              (ground arith) (omit_one-Attempt parts r)
              (λ s less. bound_loop-Bounded fuel s (omega (arith, less, f))))
    ]
  ]

  -- If a result can be encoded and its copy decoded, then bounding it ends, with one of three
  -- outcomes. Either a result whose encoding is within the limit, or an error, when the encoding of
  -- what is left fails, or when it is still above the limit and there is nothing more to leave out.
  -- What is left has all findings with all but their counterevidence, all recommendations, all
  -- metrics and guardrails with all but their references, and what is left out is counted.
  pub bound_result-Bounded :
      (r c : AuditResult parts) (n : ℕ)
      → size r ≡ some n
      → clone r ≡ some c
      → Bounded c (bound_result parts size clone limit r)
  unfolding bound_result
  bound_result-Bounded r c n e f =
      rw (bound_result, e, f) (bound_loop-Bounded (suc (droppable parts c)) c (omega arith))
