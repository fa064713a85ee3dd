-- ===== src/Accounts/Tokens/Resolve.antt =====
-- Resolving a token ends by its own test, and stays at tokens in use.
use jove_mage.Prelude.{
  ℕ, zero, suc, ◌+◌, ◌≤◌, String, ◌≡◌, refl, ◌⊎◌, inl, inr, true, false, List, [], ◌∷◌, arith,
  eq_iff, contains, Distinct, AllIn, length-le-size, strip, Dict, has, size, length, Bool-cases,
}
use jove_mage.Accounts.{Account, Pool}
use jove_mage.Accounts.Tokens.{goes_on, alias_of, resolve_loop, resolve_access_token}

resolve_loop-ends :
    (fuel : ℕ) (accounts : Dict Account) (aliases : Dict String) (token : String)
    (seen : List String)
    → Distinct seen
    → AllIn aliases seen
    → size aliases ≤ fuel + length seen
    → let r = resolve_loop fuel accounts aliases token seen in
      goes_on accounts aliases r.0 r.1 ≡ false
unfolding resolve_loop
resolve_loop-ends zero accounts aliases token seen s a enough =
    elim (Bool-cases (goes_on accounts aliases token seen)) [
      | inl e ↦ absurd (
          unfold goes_on in
          omega (
            arith,
            length-le-size aliases (token ∷ seen) (ground (arith, e), s) (ground (arith, e), a),
          ))
      | inr e ↦ e
    ]
resolve_loop-ends (suc fuel) accounts aliases token seen s a enough =
    elim (Bool-cases (goes_on accounts aliases token seen)) [
      | inl e ↦
          rw (e, resolve_loop)
            (resolve_loop-ends fuel accounts aliases (alias_of aliases token) (token ∷ seen)
              (unfold goes_on in ground (arith, e), s) (unfold goes_on in ground (arith, e), a)
              (omega arith))
      | inr e ↦ rw (e, resolve_loop) e
    ]

-- The loop always ends by its own test, never for want of rounds: after as many rounds as there are
-- aliases the test of the `while` is false. So the token that it returns is empty, or in use, or has
-- no alias, or has been seen before, as on a cycle of aliases.
pub resolve_ends :
    (p : Pool) (access_token : String)
    → let r =
        resolve_loop (size p.token_aliases) p.accounts p.token_aliases (strip access_token) [] in
      (resolve_access_token p access_token ≡ r.0)
      × (goes_on p.accounts p.token_aliases r.0 r.1 ≡ false)
      × ((r.0 ≡ "")
          ⊎ (has p.accounts r.0 ≡ true)
          ⊎ (has p.token_aliases r.0 ≡ false)
          ⊎ (contains r.0 r.1 ≡ true))
unfolding resolve_access_token
resolve_ends p access_token = (refl, stops, split _ _ stops)
  where
    stops :
        let r =
          resolve_loop (size p.token_aliases) p.accounts p.token_aliases (strip access_token) [] in
        goes_on p.accounts p.token_aliases r.0 r.1 ≡ false
    stops =
        resolve_loop-ends (size p.token_aliases) p.accounts p.token_aliases (strip access_token) []
          tt tt (omega arith)

    split :
        (t : String) (seen : List String)
        → goes_on p.accounts p.token_aliases t seen ≡ false
        → (t ≡ "")
          ⊎ (has p.accounts t ≡ true)
          ⊎ (has p.token_aliases t ≡ false)
          ⊎ (contains t seen ≡ true)
    split t seen h = unfold goes_on in ground (arith, eq_iff t "")

-- A token that is in use resolves to itself.
pub resolve_in_use :
    (p : Pool) (token : String)
    → strip token ≡ token
    → has p.accounts token ≡ true
    → resolve_access_token p token ≡ token
unfolding resolve_access_token
resolve_in_use p token trimmed h = rw (trimmed, resolve_access_token) (stays (size p.token_aliases))
  where
    stays : (fuel : ℕ) → (resolve_loop fuel p.accounts p.token_aliases token []).0 ≡ token
    stays zero = refl
    stays (suc fuel) =
        let stop : goes_on p.accounts p.token_aliases token [] ≡ false =
          unfold goes_on in ground (arith, h) in
        rw (stop, resolve_loop) refl
