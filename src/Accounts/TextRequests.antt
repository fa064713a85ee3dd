-- ===== src/Accounts/TextRequests.antt =====
-- `get_text_access_token`: the next candidate, renewed where it is about to expire. A renewal that
-- raises leaves the token as it is.
pub mod Turns
use jove_mage.Prelude.{ℕ, zero, suc, ◌+◌, String, false, Option, none, some, List}
use jove_mage.Accounts.{Pool, Config}
use jove_mage.Accounts.Normal.{or_text}
use jove_mage.Accounts.Selection.{pick_text_access_token}
use jove_mage.Accounts.Refresh.{World, Remote, refresh_access_token}

module _ (r : Remote) (now : ℕ) (c : Config) where
  -- The token of the candidate, after the renewal.
  unfoldable pub renewed : String → World × Option String → World × String
  renewed access_token (w, none) = (w, access_token)
  renewed access_token (w, some t) = (w, or_text t access_token)

  -- The end of the request, after the choice of a candidate.
  unfoldable pub after_choice : ℕ → World → Pool × Option String → World × String
  unfolding renewed refresh_access_token
  after_choice k w (p, none) = (record w { pool = p }, "")
  after_choice k w (p, some access_token) = renewed access_token (
      refresh_access_token r now c k (record w { pool = p }) access_token false
        "get_text_access_token")

  -- `get_text_access_token`; `k` numbers what the remote service is asked.
  unfoldable pub get_text_access_token : ℕ → World → List String → World × String
  unfolding after_choice pick_text_access_token
  get_text_access_token k w excluded = after_choice k w (pick_text_access_token w.pool excluded)

  -- The world after so many requests in a row.
  unfoldable pub after_requests : ℕ → World → List String → World
  unfolding get_text_access_token
  after_requests zero w excluded = w
  after_requests (suc k) w excluded =
      after_requests k (get_text_access_token k w excluded).0 excluded
