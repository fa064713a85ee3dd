-- ===== src/Accounts/Health/Ends.antt =====
-- The loop of `evaluate_account_pool` ends.
use jove_mage.Prelude.{
  ℕ, zero, suc, ◌+◌, ◌<◌, String, ◌≡◌, refl, inl, inr, Bool, true, false, Option, some, List, arith,
  length, take, values, ℤ, Bool-cases,
}
use jove_mage.Accounts.{Pool}
use jove_mage.Accounts.Health.{
  Report, health_batch, stale_tokens, is_last_round, evaluate_rounds, metrics_from_accounts,
}

module _ (refresh : ℕ → Pool → List String → Pool × ℕ × List String) (clock : ℕ → ℕ) (freshness : ℕ)
    (refresh_stale : Bool) (target_quota target_available : Option ℤ) where
  -- How many accounts are to be checked at a round.
  abbrev pub stale_count : ℕ → Pool → ℕ
  stale_count round p = length (stale_tokens (clock round) freshness (values p.accounts))

  -- A round of checks leaves fewer accounts to check, since a check marks its account as checked or
  -- as tried, whether it succeeds or not.
  abbrev pub Progresses : Type 0
  Progresses =
      (round : ℕ) (p : Pool)
      → 0 < stale_count round p
      → stale_count (round + 1)
          (refresh round p
            (take health_batch (stale_tokens (clock round) freshness (values p.accounts)))).0
        < stale_count round p

  some_stale :
      (round : ℕ) (p : Pool)
      → is_last_round refresh clock freshness refresh_stale target_quota target_available round p
        ≡ false
      → 0 < stale_count round p
  unfolding is_last_round
  some_stale round p h = ground (arith, h)

  -- Where each round of checks leaves fewer accounts to check, the evaluation ends: one round more
  -- than there are accounts to check at first is enough, and the pool that it ends with needs or
  -- wants no further round.
  pub evaluation_ends :
      (fuel round : ℕ) (p : Pool) (refreshed : ℕ) (errors : List String)
      → Progresses
      → stale_count round p < fuel
      → (r : Pool × Report) × (evaluate_rounds refresh clock freshness refresh_stale target_quota
            target_available fuel round p refreshed errors
          ≡ some r)
        × ((last : ℕ) × (is_last_round refresh clock freshness refresh_stale target_quota
                target_available last r.0
              ≡ true)
            × (r.1.metrics ≡ metrics_from_accounts (clock last) freshness (values r.0.accounts)))
  unfolding evaluate_rounds
  evaluation_ends zero round p refreshed errors progress h = absurd (omega (arith, h))
  evaluation_ends (suc fuel) round p refreshed errors progress h =
      elim (Bool-cases (
        is_last_round refresh clock freshness refresh_stale target_quota target_available round
          p)) [
            | inl e ↦ rw (e, evaluate_rounds) (_, refl, (round, e, refl))
            | inr e ↦
                rw (e, evaluate_rounds)
                  (evaluation_ends fuel (round + 1) _ _ _ progress
                    (omega (arith, h, progress round p (some_stale round p e))))
          ]
