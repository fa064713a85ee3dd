-- ===== src/Accounts/RefreshQueue.antt =====
-- The checks of accounts after failed images: `_schedule_account_refresh_after_image_failure`,
-- `_start_pending_image_failure_refreshes` and the part of `_apply_refreshed_tokens` that rewrites
-- the queue. A set is a list without repetitions. The threads that check are steps: a check begins
-- where its token becomes active, and `finish` is what its `finally` does, with the token that its
-- thread was started with. The source keeps that token in the thread's closure, where no rotation
-- rewrites it; `threads` has one for each thread that runs. `resolve` is
-- `_resolve_access_token_locked` at that time, `clock` gives the time at which a token is started,
-- and `spawns` whether the executor takes its thread. `schedule` and `finish` go on to the starts,
-- which the source makes right after them, under the queue's lock again.
pub mod Sets
pub mod Sound
pub mod Reruns
pub mod Driven
pub mod Blocked
use jove_mage.Prelude.{
  ℕ, ◌+◌, max, String, Bool, true, false, not, ◌&&◌, ◌||◌, Option, none, some, List, [], ◌∷◌, ◌++◌,
  map, length, ltb, leb, str_eq, if◌then◌else◌, contains, Dict, get, put, pop,
}
use jove_mage.Accounts.RefreshQueue.Sets.{add, discard, from_keys}

pub record Queue : Type 0 where
  pub pending : List String
  pub pending_set : List String
  pub active : List String
  pub rerun : List String
  pub started_at : Dict ℕ
  pub threads : List String

-- _IMAGE_FAILURE_REFRESH_MAX_CONCURRENT
abbrev pub max_concurrent : ℕ
max_concurrent = 2

-- _IMAGE_FAILURE_REFRESH_DEDUP_SECONDS, in microseconds
abbrev pub dedup_time : ℕ
dedup_time = 30000000

-- One thread with the token fewer.
unfoldable pub drop_one : List String → String → List String
drop_one [] token = []
drop_one (t ∷ threads) token =
    let rest = drop_one threads token in if str_eq t token then threads else t ∷ rest

-- self._image_failure_refresh_pending.append(token), and into the set
unfoldable pub enqueue : Queue → String → Queue
unfolding add
enqueue q token = record q {
  pending = q.pending ++ (token ∷ []);
  pending_set = add q.pending_set token;
}

-- The starts that are younger than the time for which failures are told apart, and the active.
unfoldable pub keep_recent : ℕ → List String → Dict ℕ → Dict ℕ
unfolding contains
keep_recent now active [] = []
keep_recent now active ((token, at) ∷ started) =
    let rest = keep_recent now active started in
    if contains token active || leb now (at + dedup_time) then (token, at) ∷ rest else rest

module _ (resolve : String → String) where
  -- The active token that leads to the same account.
  unfoldable pub active_token : List String → String → Option String
  active_token [] token = none
  active_token (t ∷ active) token =
      let rest = active_token active token in if str_eq (resolve t) token then some t else rest

  unfoldable pub last_start : Dict ℕ → String → ℕ
  last_start [] token = 0
  last_start ((t, at) ∷ started) token =
      let rest = last_start started token in if str_eq (resolve t) token then max at rest else rest

module _ (clock : String → ℕ) (spawns : String → Bool) where
  -- One pass of the `while`: the token is active, and stays so if its thread is taken.
  unfoldable pub start_one : String → Queue → Queue
  unfolding add discard
  start_one token q =
      let started = record q {
        pending_set = discard q.pending_set token;
        active = add q.active token;
        started_at = put q.started_at token (clock token);
      } in
      if spawns token
      then record started { threads = token ∷ q.threads }
      else record started { active = discard started.active token }

  -- The loop, on the tokens that are pending.
  unfoldable pub start_loop : List String → Queue → Queue
  start_loop [] q = record q { pending = [] }
  start_loop (token ∷ pending) q = elim (ltb (length q.active) max_concurrent) [
    | true ↦ start_loop pending (start_one token q)
    | false ↦ record q { pending = token ∷ pending }
  ]

  -- `_start_pending_image_failure_refreshes`
  unfoldable pub start_pending : Queue → Queue
  start_pending q = start_loop q.pending q

  module _ (resolve : String → String) where
    -- `_schedule_account_refresh_after_image_failure`; the answer is whether a check is coming.
    unfoldable pub schedule : ℕ → Queue → String → Bool → Queue × Bool
    unfolding keep_recent active_token last_start add contains
    schedule now q access_token force =
        if str_eq access_token ""
        then (q, false)
        else (let token = resolve access_token in
            let kept = record q { started_at = keep_recent now q.active q.started_at } in
            elim (active_token resolve q.active token) [
              | some t ↦ ((if force then record kept { rerun = add q.rerun t } else kept), true)
              | none ↦
                  if contains token q.pending_set
                  then (kept, true)
                  else if not force
                      && ltb now (last_start resolve kept.started_at token + dedup_time)
                  then (kept, false)
                  else (start_pending (enqueue kept token), true)
            ])

    -- The `finally` of `refresh`.
    unfoldable pub finish : Queue → String → Queue
    unfolding discard contains drop_one
    finish q token =
        let resolved = resolve token in
        let q' = record q {
          active = discard q.active token;
          rerun = discard q.rerun token;
          threads = drop_one q.threads token;
        } in
        if contains token q.rerun
          && not (str_eq resolved "")
          && not (contains resolved q.pending_set)
        then start_pending (enqueue q' resolved)
        else start_pending q'

-- `_rewrite_token`
unfoldable pub rewrite_token : String → String → String → String
rewrite_token old new token = if str_eq token old then new else token

unfoldable pub rewrite_set : String → String → List String → List String
unfolding contains add discard
rewrite_set old new set = if contains old set then add (discard set old) new else set

-- The rewriting of the queue when a token is rotated.
unfoldable pub rotate_queue : Queue → String → String → Queue
unfolding rewrite_token rewrite_set from_keys contains
rotate_queue q old new =
    let in_pending = contains old q.pending_set || contains old q.pending in
    let pending =
      if in_pending then from_keys (map (rewrite_token old new) q.pending) else q.pending in
    record {
      pending = pending;
      pending_set = if in_pending then pending else q.pending_set;
      active = rewrite_set old new q.active;
      rerun = rewrite_set old new q.rerun;
      started_at = elim (get q.started_at old) [
        | none ↦ pop q.started_at old
        | some at ↦ put (pop q.started_at old) new at
      ];
      threads = q.threads;
    }
