-- ===== src/Accounts/Tokens.antt =====
-- `_resolve_access_token_locked`: from a token that has been rotated away to the one in use.
pub mod Resolve
use jove_mage.Prelude.{
  ℕ, zero, suc, String, Bool, true, false, not, ◌&&◌, Option, none, some, List, [], ◌∷◌, str_eq,
  contains, strip, Dict, get, has, size, keys,
}
use jove_mage.Accounts.{Account, Pool}

-- The test of the `while`.
unfoldable pub goes_on : Dict Account → Dict String → String → List String → Bool
unfolding has contains
goes_on accounts aliases token seen =
    not (str_eq token "")
    && not (has accounts token)
    && has aliases token
    && not (contains token seen)

-- self._token_aliases.get(token, token)
unfoldable pub alias_of : Dict String → String → String
alias_of aliases token = elim (get aliases token) [ none ↦ token | some t ↦ t ]

-- The loop, with the tokens seen so far.
unfoldable pub resolve_loop :
    ℕ → Dict Account → Dict String → String → List String → String × List String
unfolding alias_of
resolve_loop zero accounts aliases token seen = (token, seen)
resolve_loop (suc fuel) accounts aliases token seen = elim (goes_on accounts aliases token seen) [
  | true ↦ resolve_loop fuel accounts aliases (alias_of aliases token) (token ∷ seen)
  | false ↦ (token, seen)
]

-- Each round sees a new key of the aliases, so as many rounds as there are aliases are enough.
unfoldable pub resolve_access_token : Pool → String → String
unfolding resolve_loop
resolve_access_token p access_token =
    (resolve_loop (size p.token_aliases) p.accounts p.token_aliases (strip access_token) []).0

-- `get_account`: the account that a token leads to, if it is not empty.
unfoldable pub get_account : Pool → String → Option Account
get_account p access_token = elim (str_eq access_token "") [
  | true ↦ none
  | false ↦ get p.accounts (resolve_access_token p access_token)
]

-- `list_tokens`
unfoldable pub list_tokens : Pool → List String
list_tokens p = keys p.accounts
