-- ===== src/Accounts/Precheck/Steady.antt =====
-- A remote check that neither renews nor removes a token keeps the slots.
use jove_mage.Prelude.{ℕ, ◌+◌, String, ◌≡◌, ◌≢◌, false, not, ◌&&◌, Option, none, leb, ◌==◌}
use jove_mage.Accounts.{Account, Pool, Config}
use jove_mage.Accounts.Tokens.{resolve_access_token}
use jove_mage.Accounts.Keepalive.{refresh_skew}
use jove_mage.Accounts.Refresh.{World, Remote, invalid, fetch_remote_info}
use jove_mage.Accounts.Precheck.Balance.{IsKeyed}

-- A change of the pool that keeps the slots and what tokens lead to.
record Alike (p q : Pool) : Type 0 where
  slots : q.image_inflight ≡ p.image_inflight
  leads : (u : String) → resolve_access_token q u ≡ resolve_access_token p u
  keyed : IsKeyed p → IsKeyed q

-- A remote service by which no token is about to expire and which refuses none, and a pool that keeps
-- its limited accounts.
pub record IsSteady (r : Remote) (now : ℕ) (c : Config) : Type 0 where
  pub no_renewal :
      (t : String)
      → (not (r.expires_at t == 0) && leb (r.expires_at t) (now + refresh_skew)) ≡ false
  pub no_refusal : (k : ℕ) (t error : String) → r.user_info k t ≢ invalid error
  pub no_removal : c.auto_remove_rate_limited_accounts ≡ false

module _ (r : Remote) (now : ℕ) (c : Config) (steady : IsSteady r now c) where
  -- The check of an attempt.
  abbrev pub check : ℕ → World → String → World × Option Account
  check k w t = fetch_remote_info r now c k w t "get_available_access_token" none
