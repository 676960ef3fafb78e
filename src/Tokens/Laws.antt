-- ===== src/Tokens/Laws.antt =====
-- What a derived difference stands for.
use codex_prompt_better.Base.{ℕ, ◌+◌, ◌≤◌, ◌<◌, ◌≡◌, ◌↔◌, none, false, arith}
use codex_prompt_better.Tokens.{Observation, derived, wrap, reset, u64_mod, unlike, derive}

module _ (start end : Observation) (wrap_at : ℕ) (fits : wrap_at < u64_mod) where
  -- On readings that are alike and in sequence, the difference leads from the first reading to the
  -- second, exactly where it is derived, and once around a counter of `wrap_at + 1` values where it
  -- wraps; in both cases it is a number of 64 bits if the readings are. A reset gives no difference, and
  -- a difference is derived exactly when the counter did not fall.
  pub derive_accounts :
      unlike start end ≡ false
      → start.sequence < end.sequence
      → end.value < u64_mod
      → let d = (derive start end wrap_at).0 in
        ((derive start end wrap_at).1 ≡ none)
        × (d.value < u64_mod)
        × (d.state ≡ derived → start.value + d.value ≡ end.value)
        × (d.state ≡ wrap
            → (start.value + d.value ≡ end.value + (wrap_at + 1)) × (start.value ≤ wrap_at))
        × (d.state ≡ reset → (d.value ≡ 0) × (end.value < start.value))
        × ((d.state ≡ derived) ↔ (start.value ≤ end.value))
  unfolding derive
  derive_accounts alike later small = ground arith
