-- ===== src/Accounts/Health/Totals.antt =====
-- The loop of the metrics counts and sums what they are said to.
use jove_mage.Prelude.{
  ℕ, ◌+◌, ◌≡◌, Bool, not, ◌&&◌, List, [], ◌∷◌, arith, str_eq, if◌then◌else◌, count_if,
}
use jove_mage.Accounts.{Account}
use jove_mage.Accounts.Health.{
  Metrics, no_metrics, count_normal, count_account, count_accounts, metrics_from_accounts,
  remote_check_is_fresh,
}

-- The sum of the quotas of the accounts that pass.
abbrev pub sum_quota : (Account → Bool) → List Account → ℕ
sum_quota p [] = 0
sum_quota p (a ∷ accounts) = let rest = sum_quota p accounts in if p a then a.quota + rest else rest

abbrev pub is_normal : Account → Bool
is_normal a = str_eq a.status "正常"

-- The metrics, said without a loop, on top of given ones.
pub record Totals (now freshness : ℕ) (accounts : List Account) (m r : Metrics) : Type 0 where
  pub current_quotas :
      r.current_quota
      ≡ m.current_quota
        + sum_quota
            (λ a. is_normal a && remote_check_is_fresh now freshness a && not a.image_quota_unknown)
            accounts
  pub current :
      r.current_available
      ≡ m.current_available
        + count_if (λ a. is_normal a && remote_check_is_fresh now freshness a) accounts
  pub estimated_quotas :
      r.estimated_quota
      ≡ m.estimated_quota + sum_quota (λ a. is_normal a && not a.image_quota_unknown) accounts
  pub estimated : r.estimated_available ≡ m.estimated_available + count_if is_normal accounts
  pub unconfirmed :
      r.unconfirmed_available
      ≡ m.unconfirmed_available
        + count_if (λ a. is_normal a && not (remote_check_is_fresh now freshness a)) accounts
  pub unknown :
      r.unknown_quota_count
      ≡ m.unknown_quota_count
        + count_if
            (λ a. is_normal a && remote_check_is_fresh now freshness a && a.image_quota_unknown)
            accounts

count_accounts-Totals :
    (now freshness : ℕ) (accounts : List Account) (m : Metrics)
    → Totals now freshness accounts m (count_accounts now freshness m accounts)
unfolding count_accounts count_account count_normal
count_accounts-Totals now freshness [] m = record {
  current_quotas = omega arith;
  current = omega arith;
  estimated_quotas = omega arith;
  estimated = omega arith;
  unconfirmed = omega arith;
  unknown = omega arith;
}
count_accounts-Totals now freshness (a ∷ accounts) m =
    let t = count_accounts-Totals now freshness accounts (count_account now freshness m a) in
    record {
      current_quotas = ground (arith, t.current_quotas);
      current = ground (arith, t.current);
      estimated_quotas = ground (arith, t.estimated_quotas);
      estimated = ground (arith, t.estimated);
      unconfirmed = ground (arith, t.unconfirmed);
      unknown = ground (arith, t.unknown);
    }

parts :
    (p q : Account → Bool) (accounts : List Account)
    → count_if p accounts
      ≡ count_if (λ a. p a && q a) accounts + count_if (λ a. p a && not (q a)) accounts
parts p q [] = omega arith
parts p q (a ∷ accounts) = ground (arith, parts p q accounts)

-- The loop of the metrics computes the sums and counts that their names promise, over the accounts
-- whose status is normal: of those that were checked lately, those that were not, and all; and every
-- normal account is either confirmed or unconfirmed.
pub metrics_from_accounts-Totals :
    (now freshness : ℕ) (accounts : List Account)
    → let r = metrics_from_accounts now freshness accounts in
      Totals now freshness accounts no_metrics r
      × (r.estimated_available ≡ r.current_available + r.unconfirmed_available)
unfolding metrics_from_accounts no_metrics
metrics_from_accounts-Totals now freshness accounts =
    let t = count_accounts-Totals now freshness accounts no_metrics in
    (
      t,
      omega (
        arith,
        t.estimated,
        t.current,
        t.unconfirmed,
        parts is_normal (remote_check_is_fresh now freshness) accounts,
      ),
    )
