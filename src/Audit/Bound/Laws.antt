-- ===== src/Audit/Bound/Laws.antt =====
-- The bound ends, and what it leaves.
use codex_prompt_better.Base.{
  ℕ, suc, ◌+◌, ◌≡◌, refl, ap, List, [], ◌∷◌, map, Option, none, some, length, arith,
}
use codex_prompt_better.Audit.Omission.{
  omit_last, front, length-front, or_else, total, Omitted, omit_held-Omitted,
}
use codex_prompt_better.Audit.Bound.{
  Parts, AuditResult, hold_refs, hold_counter, one_less, omit_evidence, omit_one, evidence_items,
  droppable,
}

module _ (parts : Parts) where
  -- What an omission never touches: everything of a finding but its counterevidence, the
  -- recommendations, everything of a metric or a guardrail but its references, and all else.
  pub record Keeps (r s : AuditResult parts) : Type 0 where
    pub findings : map (λ f. hold_counter f []) s.findings ≡ map (λ f. hold_counter f []) r.findings
    pub metrics : map (λ m. m.body) s.metrics ≡ map (λ m. m.body) r.metrics
    pub guardrails : map (λ g. g.body) s.guardrails ≡ map (λ g. g.body) r.guardrails
    pub recommendations : s.recommendations ≡ r.recommendations
    pub others : s.others ≡ r.others

  -- An attempt on a part: it is empty, or the result has one item less.
  pub data Attempt (part : ℕ) (r : AuditResult parts) : Option (AuditResult parts) → Type 0 where
    empty : part ≡ 0 → Attempt part r none
    lighter :
        (s : AuditResult parts)
        → droppable parts r ≡ suc (droppable parts s)
        → s.omitted_count ≡ r.omitted_count + 1
        → Keeps r s
        → Attempt part r (some s)

  or_else-Attempt :
      (p q : ℕ) (r : AuditResult parts) (a b : Option (AuditResult parts))
      → Attempt p r a
      → Attempt q r b
      → Attempt (p + q) r (or_else a b)
  or_else-Attempt p q r none none (Attempt.empty z) (Attempt.empty y) =
      Attempt.empty (omega (arith, z, y))
  or_else-Attempt p q r none (some _) (Attempt.empty z) (Attempt.lighter s d c k) =
      Attempt.lighter s d c k
  or_else-Attempt p q r (some _) b (Attempt.lighter s d c k) y = Attempt.lighter s d c k

  metrics-Attempt :
      (r : AuditResult parts) (o : Option _)
      → Omitted
          (λ e. e.evidence_refs)
          hold_refs
          (λ m. m.body)
          (λ x ys. refl)
          (λ x ys. refl)
          r.metrics
          o
      → Attempt
          (total (λ e. e.evidence_refs) hold_refs r.metrics)
          r
          (one_less parts r (λ x. record r { metrics = x }) o)
  metrics-Attempt r none (Omitted.empty z) = Attempt.empty z
  metrics-Attempt r (some _) (Omitted.shorter xs n b) =
      Attempt.lighter (record r { metrics = xs; omitted_count = r.omitted_count + 1 })
        (omega (arith, n)) refl
        (record {
          findings = refl;
          metrics = b;
          guardrails = refl;
          recommendations = refl;
          others = refl;
        })

  findings-Attempt :
      (r : AuditResult parts) (o : Option _)
      → Omitted
          (λ f. f.counterevidence)
          hold_counter
          (λ f. hold_counter f [])
          (λ x ys. refl)
          (λ x ys. refl)
          r.findings
          o
      → Attempt
          (total (λ f. f.counterevidence) hold_counter r.findings)
          r
          (one_less parts r (λ x. record r { findings = x }) o)
  findings-Attempt r none (Omitted.empty z) = Attempt.empty z
  findings-Attempt r (some _) (Omitted.shorter xs n b) =
      Attempt.lighter (record r { findings = xs; omitted_count = r.omitted_count + 1 })
        (omega (arith, n)) refl
        (record {
          findings = b;
          metrics = refl;
          guardrails = refl;
          recommendations = refl;
          others = refl;
        })

  guardrails-Attempt :
      (r : AuditResult parts) (o : Option _)
      → Omitted
          (λ e. e.evidence_refs)
          hold_refs
          (λ g. g.body)
          (λ x ys. refl)
          (λ x ys. refl)
          r.guardrails
          o
      → Attempt
          (total (λ e. e.evidence_refs) hold_refs r.guardrails)
          r
          (one_less parts r (λ x. record r { guardrails = x }) o)
  guardrails-Attempt r none (Omitted.empty z) = Attempt.empty z
  guardrails-Attempt r (some _) (Omitted.shorter xs n b) =
      Attempt.lighter (record r { guardrails = xs; omitted_count = r.omitted_count + 1 })
        (omega (arith, n)) refl
        (record {
          findings = refl;
          metrics = refl;
          guardrails = b;
          recommendations = refl;
          others = refl;
        })

  contributions-Attempt :
      (r : AuditResult parts) (xs : List _)
      → r.contributions ≡ xs
      → Attempt
          (length r.contributions)
          r
          (one_less parts r (λ x. record r { contributions = x }) (omit_last xs))
  unfolding omit_last
  contributions-Attempt r [] e = Attempt.empty (ap length e)
  contributions-Attempt r (x ∷ xs) e =
      Attempt.lighter (record r { contributions = front x xs; omitted_count = r.omitted_count + 1 })
        (omega (arith, ap length e, length-front x xs)) refl
        (record {
          findings = refl;
          metrics = refl;
          guardrails = refl;
          recommendations = refl;
          others = refl;
        })

  confounders-Attempt :
      (r : AuditResult parts) (xs : List _)
      → r.confounders ≡ xs
      → Attempt
          (length r.confounders)
          r
          (one_less parts r (λ x. record r { confounders = x }) (omit_last xs))
  unfolding omit_last
  confounders-Attempt r [] e = Attempt.empty (ap length e)
  confounders-Attempt r (x ∷ xs) e =
      Attempt.lighter (record r { confounders = front x xs; omitted_count = r.omitted_count + 1 })
        (omega (arith, ap length e, length-front x xs)) refl
        (record {
          findings = refl;
          metrics = refl;
          guardrails = refl;
          recommendations = refl;
          others = refl;
        })

  workload_effects-Attempt :
      (r : AuditResult parts) (xs : List _)
      → r.workload_effects ≡ xs
      → Attempt
          (length r.workload_effects)
          r
          (one_less parts r (λ x. record r { workload_effects = x }) (omit_last xs))
  unfolding omit_last
  workload_effects-Attempt r [] e = Attempt.empty (ap length e)
  workload_effects-Attempt r (x ∷ xs) e =
      Attempt.lighter
        (record r { workload_effects = front x xs; omitted_count = r.omitted_count + 1 })
        (omega (arith, ap length e, length-front x xs)) refl
        (record {
          findings = refl;
          metrics = refl;
          guardrails = refl;
          recommendations = refl;
          others = refl;
        })

  outliers-Attempt :
      (r : AuditResult parts) (xs : List _)
      → r.outliers ≡ xs
      → Attempt
          (length r.outliers)
          r
          (one_less parts r (λ x. record r { outliers = x }) (omit_last xs))
  unfolding omit_last
  outliers-Attempt r [] e = Attempt.empty (ap length e)
  outliers-Attempt r (x ∷ xs) e =
      Attempt.lighter (record r { outliers = front x xs; omitted_count = r.omitted_count + 1 })
        (omega (arith, ap length e, length-front x xs)) refl
        (record {
          findings = refl;
          metrics = refl;
          guardrails = refl;
          recommendations = refl;
          others = refl;
        })

  omit_evidence-Attempt :
      (r : AuditResult parts) → Attempt (evidence_items parts r) r (omit_evidence parts r)
  unfolding omit_evidence
  omit_evidence-Attempt r =
      or_else-Attempt _ _ r _ _ (metrics-Attempt r _ (omit_held-Omitted _ _ _ _ _ r.metrics)) (
        or_else-Attempt _ _ r _ _ (findings-Attempt r _ (omit_held-Omitted _ _ _ _ _ r.findings))
          (guardrails-Attempt r _ (omit_held-Omitted _ _ _ _ _ r.guardrails)))

  pub omit_one-Attempt : (r : AuditResult parts) → Attempt (droppable parts r) r (omit_one parts r)
  unfolding omit_one
  omit_one-Attempt r = or_else-Attempt _ _ r _ _ (omit_evidence-Attempt r) (
      or_else-Attempt _ _ r _ _ (contributions-Attempt r r.contributions refl) (
        or_else-Attempt _ _ r _ _ (confounders-Attempt r r.confounders refl) (
          or_else-Attempt _ _ r _ _ (workload_effects-Attempt r r.workload_effects refl)
            (outliers-Attempt r r.outliers refl))))
