-- ===== src/Accounts/Removal.antt =====
-- `delete_accounts` and `handle_invalid_token`.
pub mod Forgotten
use jove_mage.Prelude.{
  ℕ, zero, suc, ◌+◌, String, Bool, true, false, not, ◌||◌, Option, none, some, List, [], ◌∷◌, ltb,
  str_eq, if◌then◌else◌, contains, select, map, ℤ, Dict, has, pop,
}
use jove_mage.Accounts.{Item, Pool, Config, RawNumber, save}
use jove_mage.Accounts.Tokens.{resolve_access_token}
use jove_mage.Accounts.Outcomes.{record_invalid_token_seen, update_account, wrap_index}

unfoldable pub pop_all {ℓ} : {V : Type ℓ} → Dict V → List String → Dict V
pop_all d [] = d
pop_all d (token ∷ tokens) = pop_all (pop d token) tokens

-- How many of the tokens are there, each counted once.
unfoldable pub count_popped {ℓ} : {V : Type ℓ} → Dict V → List String → ℕ
unfolding has
count_popped d [] = 0
count_popped d (token ∷ tokens) =
    let rest = count_popped (pop d token) tokens in if has d token then suc rest else rest

-- The aliases that neither start nor end at one of the tokens.
unfoldable pub keep_aliases : List String → Dict String → Dict String
unfolding contains
keep_aliases targets [] = []
keep_aliases targets ((old, new) ∷ aliases) =
    let rest = keep_aliases targets aliases in
    if contains old targets || contains new targets then rest else (old, new) ∷ rest

unfoldable pub targets : Pool → List String → List String
targets p tokens = map (resolve_access_token p) (select (λ token. not (str_eq token "")) tokens)

-- The pool without what it holds of these tokens.
unfoldable pub without_targets : Pool → List String → Pool
unfolding pop_all keep_aliases
without_targets p gone = record p {
  accounts = pop_all p.accounts gone;
  image_inflight = pop_all p.image_inflight gone;
  token_aliases = keep_aliases gone p.token_aliases;
}

unfoldable pub remove_targets : Pool → List String → Pool × ℕ
unfolding count_popped wrap_index save
remove_targets p gone =
    let removed = count_popped p.accounts gone in
    let q = without_targets p gone in
    if ltb 0 removed then (save (wrap_index q), removed) else (q, removed)

-- `delete_accounts`: the pool and the number of accounts removed.
unfoldable pub delete_accounts : Pool → List String → Pool × ℕ
delete_accounts p tokens = elim (targets p tokens) [
  | [] ↦ (p, 0)
  | token ∷ rest ↦ remove_targets p (token ∷ rest)
]

-- {"status": "异常", "quota": 0}
unfoldable pub mark_invalid : Item → Item
mark_invalid item = record item { status = "异常"; quota = RawNumber.number (ℤ.pos 0) }

-- config.auto_remove_invalid_accounts if remove is None else remove
unfoldable pub should_remove : Config → Option Bool → Bool
should_remove c none = c.auto_remove_invalid_accounts
should_remove c (some b) = b

-- `handle_invalid_token`; `remove` is none for the configured choice.
unfoldable pub handle_invalid_token :
    (redact : String → String)
    → ℕ
    → Config
    → Pool
    → String
    → String
    → String
    → Option Bool
    → Pool × Bool
handle_invalid_token redact now c p access_token event error remove =
    let q = record_invalid_token_seen redact now p access_token event error in
    let r = delete_accounts q (access_token ∷ []) in
    if not (should_remove c remove)
    then (q, false)
    else if ltb 0 r.1
    then (r.0, true)
    else if str_eq access_token ""
    then (r.0, false)
    else ((update_account now c r.0 access_token mark_invalid).0, false)
