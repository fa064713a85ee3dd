-- ===== src/Accounts/Precheck/Verdict.antt =====
-- What the answer of `get_available_access_token` says about the checks that it has made.
use jove_mage.Prelude.{
  ℕ, zero, suc, String, ◌≡◌, ◌≢◌, refl, ◌∙◌, ap, ◌⊎◌, inl, inr, Bool, true, false, not, ◌&&◌, ◌||◌,
  Option, none, some, List, [], ◌∷◌, arith, str_eq, Bool-cases, List-cases, if◌then◌else◌,
}
use jove_mage.Accounts.{Account, Config}
use jove_mage.Accounts.Normal.{or_text, normalize_source_type, is_empty}
use jove_mage.Accounts.Selection.{
  Request, Kind, picked, refused, waits, quota_exhausted, unavailable, take_slot, matches,
  is_image_account_available, acquire_next_candidate_token, no_ready_candidate_error,
}
use jove_mage.Accounts.Selection.Slots.{acquire_cases}
use jove_mage.Accounts.Outcomes.{release_image_slot}
use jove_mage.Accounts.Refresh.{World}
use jove_mage.Accounts.Precheck.{
  Answer, found, rejected, blocked, verdict, with_resolved, after_check, after_pick, attempts,
  get_available_access_token,
}

-- A check that has returned a limited account.
abbrev pub is_limited : Option Account → Bool
is_limited none = false
is_limited (some a) = str_eq a.status "限流"

-- A check came to a limited account.
abbrev pub some_limited : List (Option Account) → Bool
some_limited [] = false
some_limited (o ∷ checks) = is_limited o || some_limited checks

-- A check came to something else.
abbrev pub some_other : List (Option Account) → Bool
some_other [] = false
some_other (o ∷ checks) = not (is_limited o) || some_other checks

-- The end of the attempts: none is left, no candidate is, a slot has to be waited for, or a check has
-- returned an account that fits.
pub data Stop : Type 0 where
  spent : Stop
  no_candidate : Kind → Stop
  must_wait : Stop
  fits : Account → String → Stop

module _ (fetch : ℕ → World → String → World × Option Account) (c : Config) (r : Request) where
  abbrev pub is_fit : Account → Bool
  is_fit a = is_image_account_available a && matches r a

  -- A run of attempts, with what the failed checks returned, in their order, and its end.
  pub data Run : ℕ → World → List String → List (Option Account) → Stop → Type 0 where
    is_spent : (w : World) (tried : List String) → Run zero w tried [] spent
    is_refused :
        (left : ℕ) (w : World) (tried : List String)
        → acquire_next_candidate_token w.pool c r tried
          ≡ (w.pool, refused (no_ready_candidate_error w.pool r tried))
        → Run (suc left) w tried [] (no_candidate (no_ready_candidate_error w.pool r tried))
    is_waiting :
        (left : ℕ) (w : World) (tried : List String)
        → acquire_next_candidate_token w.pool c r tried ≡ (w.pool, waits)
        → Run (suc left) w tried [] must_wait
    is_done :
        (left : ℕ) (w v : World) (tried : List String) (t : String) (a : Account)
        → acquire_next_candidate_token w.pool c r tried ≡ (take_slot w.pool t, picked t)
        → fetch left (record w { pool = take_slot w.pool t }) t ≡ (v, some a)
        → is_fit a ≡ true
        → Run (suc left) w tried [] (fits a t)
    is_raised :
        (left : ℕ) (w v : World) (tried : List String) (t : String) (checks : List (Option Account))
        (stop : Stop)
        → acquire_next_candidate_token w.pool c r tried ≡ (take_slot w.pool t, picked t)
        → fetch left (record w { pool = take_slot w.pool t }) t ≡ (v, none)
        → Run left (record v { pool = release_image_slot v.pool t }) (t ∷ tried) checks stop
        → Run (suc left) w tried (none ∷ checks) stop
    is_unfit :
        (left : ℕ) (w v : World) (tried : List String) (t : String) (a : Account)
        (checks : List (Option Account)) (stop : Stop)
        → acquire_next_candidate_token w.pool c r tried ≡ (take_slot w.pool t, picked t)
        → fetch left (record w { pool = take_slot w.pool t }) t ≡ (v, some a)
        → is_fit a ≡ false
        → Run left
            (record v { pool = release_image_slot v.pool t })
            (with_resolved a t tried)
            checks
            stop
        → Run (suc left) w tried (some a ∷ checks) stop

  -- The error that the failed checks call for.
  abbrev pub kind_of : List (Option Account) → Kind
  kind_of checks =
      if some_limited checks && not (some_other checks) then quota_exhausted else unavailable

  -- The answer that an end calls for, after the tokens that were tried or excluded.
  abbrev pub Told : List String → List (Option Account) → Kind → Stop → Answer → Type 0
  Told tried checks kind spent answer = answer ≡ rejected kind
  Told tried checks kind (no_candidate k) answer =
      ((tried ≡ []) × (checks ≡ []) × (answer ≡ rejected k))
      ⊎ (((tried ≢ []) ⊎ (checks ≢ [])) × (answer ≡ rejected kind))
  Told tried checks kind must_wait answer = answer ≡ blocked
  Told tried checks kind (fits a t) answer = answer ≡ found (or_text a.access_token t)

  -- The run of a call, and its answer.
  abbrev Explained : ℕ → World → List String → Bool → Bool → Answer → Type 0
  Explained left w tried saw failed answer =
      (checks : List (Option Account)) × (stop : Stop) × Run left w tried checks stop
      × Told tried checks (verdict (saw || some_limited checks) (failed || some_other checks)) stop
          answer

  -- A failed check goes before the others.
  more :
      (tried later : List String) (o : Option Account) (checks : List (Option Account))
      (kind kind' : Kind) (stop : Stop) (answer : Answer)
      → later ≢ []
      → kind ≡ kind'
      → Told later checks kind stop answer
      → Told tried (o ∷ checks) kind' stop answer
  more tried later o checks kind kind' spent answer n e t = t ∙ ap rejected e
  more tried later o checks kind kind' (no_candidate k) answer n e (inl (none_tried, _, _)) =
      absurd (n none_tried)
  more tried later o checks kind kind' (no_candidate k) answer n e (inr (_, t)) =
      inr (inr (λ q. ground (arith, q)), t ∙ ap rejected e)
  more tried later o checks kind kind' must_wait answer n e t = t
  more tried later o checks kind kind' (fits a u) answer n e t = t

  more_checks :
      (tried later : List String) (o : Option Account) (checks : List (Option Account))
      (saw failed saw' failed' : Bool) (stop : Stop) (answer : Answer)
      → later ≢ []
      → (saw' || some_limited checks) ≡ (saw || some_limited (o ∷ checks))
      → (failed' || some_other checks) ≡ (failed || some_other (o ∷ checks))
      → Told later checks
          (verdict (saw' || some_limited checks) (failed' || some_other checks))
          stop
          answer
      → Told tried
          (o ∷ checks)
          (verdict (saw || some_limited (o ∷ checks)) (failed || some_other (o ∷ checks)))
          stop
          answer
  more_checks tried later o checks saw failed saw' failed' stop answer n e f t =
      more tried later o checks _ _ stop answer n
        (ap (λ b. verdict b (failed' || some_other checks)) e
          ∙ ap (verdict (saw || some_limited (o ∷ checks))) f)
        t

  with_resolved_more :
      (a : Account) (t : String) (tried : List String) → with_resolved a t tried ≢ []
  unfolding with_resolved
  with_resolved_more a t tried e = ground (arith, e)

  check-Explained :
      (left : ℕ) (w : World) (t : String) (tried : List String) (saw failed : Bool)
      (s : World × Option Account)
      → ((v : World) (later : List String) (saw' failed' : Bool)
          → Explained left v later saw' failed' (attempts fetch c r left v later saw' failed').1)
      → acquire_next_candidate_token w.pool c r tried ≡ (take_slot w.pool t, picked t)
      → fetch left (record w { pool = take_slot w.pool t }) t ≡ s
      → Explained
          (suc left)
          w
          tried
          saw
          failed
          (after_check fetch c r (attempts fetch c r left) t tried saw failed s).1
  unfolding after_check
  check-Explained left w t tried saw failed (v, none) go taken checked =
      let (checks, stop, run, told) = go _ (t ∷ tried) saw true in
      (
        none ∷ checks,
        stop,
        is_raised left w v tried t checks stop taken checked run,
        more_checks tried (t ∷ tried) none checks saw failed saw true stop _
            (λ n. ground (arith, n)) (ground arith) (ground arith) told,
      )
  check-Explained left w t tried saw failed (v, some a) go taken checked =
      elim (Bool-cases (is_fit a)) [
        | inl g ↦
            rw (g, after_check) ([], fits a t, is_done left w v tried t a taken checked g, refl)
        | inr g ↦ elim (Bool-cases (str_eq a.status "限流")) [
          | inl h ↦
              let (checks, stop, run, told) = go _ (with_resolved a t tried) true failed in
              rw (g, h, after_check)
                (
                  some a ∷ checks,
                  stop,
                  is_unfit left w v tried t a checks stop taken checked g run,
                  more_checks tried (with_resolved a t tried) (some a) checks saw failed true failed
                      stop _ (with_resolved_more a t tried) (ground (arith, h)) (ground (arith, h))
                      told,
                )
          | inr h ↦
              let (checks, stop, run, told) = go _ (with_resolved a t tried) saw true in
              rw (g, h, after_check)
                (
                  some a ∷ checks,
                  stop,
                  is_unfit left w v tried t a checks stop taken checked g run,
                  more_checks tried (with_resolved a t tried) (some a) checks saw failed saw true
                      stop _ (with_resolved_more a t tried) (ground (arith, h)) (ground (arith, h))
                      told,
                )
        ]
      ]

  attempts-Explained :
      (left : ℕ) (w : World) (tried : List String) (saw failed : Bool)
      → Explained left w tried saw failed (attempts fetch c r left w tried saw failed).1
  unfolding attempts after_pick
  attempts-Explained zero w tried saw failed =
      ([], spent, is_spent w tried, unfold verdict in ground arith)
  attempts-Explained (suc left) w tried saw failed = elim (acquire_cases w.pool c r tried) [
    | inl e ↦
        rw (e, attempts)
          (
            [],
            no_candidate (no_ready_candidate_error w.pool r tried),
            is_refused left w tried e,
            elim (List-cases tried) [
              | inl f ↦ inl (f, refl, rw f (unfold is_empty in refl))
              | inr (x, xs, f) ↦ inr (
                inl (λ q. ground (arith, q, f)),
                rw f (unfold is_empty in unfold verdict in ground arith),
              )
            ],
          )
    | inr (inl e) ↦ rw (e, attempts) ([], must_wait, is_waiting left w tried e, refl)
    | inr (inr (t, e, _)) ↦
        rw (e, attempts)
          (check-Explained left w t tried saw failed
            (fetch left (record w { pool = take_slot w.pool t }) t) (attempts-Explained left) e
            refl)
  ]

  -- The answer of a call that checks its accounts, which is one of another pool than Firefly's, follows
  -- from the run of its checks. A token that is returned comes from the last check: the account that
  -- it returned is available and matches the request, and the token is the one that it holds, or the
  -- one that was checked where it holds none. An error says that the quota is exhausted where checks
  -- were made and every one of them returned a limited account, and else that no account is available.
  -- Only where nothing was checked and nothing excluded, the error is that of the selection. The call
  -- waits only where the selection does.
  pub get_available_access_token-Justified :
      (w : World) (excluded : List String)
      → str_eq (normalize_source_type r.source_type) "firefly" ≡ false
      → (checks : List (Option Account)) × (stop : Stop) × Run 20 w excluded checks stop
        × Told excluded checks
            (kind_of checks)
            stop
            (get_available_access_token fetch c r w excluded).1
  unfolding get_available_access_token verdict
  get_available_access_token-Justified w excluded checks =
      rw (checks, get_available_access_token) (attempts-Explained 20 w excluded false false)
