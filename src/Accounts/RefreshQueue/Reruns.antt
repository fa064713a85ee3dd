-- ===== src/Accounts/RefreshQueue/Reruns.antt =====
-- A failure that comes while its account is being checked is checked afterwards.
use jove_mage.Prelude.{
  ℕ, String, ◌≡◌, ◌≢◌, refl, inl, inr, Bool, true, false, ◌||◌, some, List, [], ◌∷◌, length, ltb,
  arith, eq_iff, eq_refl, str_eq, contains, Bool-cases,
}
use jove_mage.Accounts.RefreshQueue.Sets.{add, discard, contains-add, contains-add_last}
use jove_mage.Accounts.RefreshQueue.{
  Queue, max_concurrent, start_one, start_loop, start_pending, enqueue, active_token, schedule,
  drop_one, finish, keep_recent,
}
use jove_mage.Accounts.RefreshQueue.Sound.{IsSound, finishes, call_queue}

-- A check of the token runs or is going to.
unfoldable pub is_coming : Queue → String → Bool
is_coming q token = contains token q.pending || contains token q.active

module _ (clock : String → ℕ) (spawns : String → Bool)
    (all_spawn : (t : String) → spawns t ≡ true) where
  start_loop-is_coming :
      (pending : List String) (q : Queue) (u : String)
      → (contains u pending || contains u q.active) ≡ true
      → is_coming (start_loop clock spawns pending q) u ≡ true
  unfolding is_coming start_loop contains
  start_loop-is_coming [] q u h = h
  start_loop-is_coming (token ∷ pending) q u h =
      elim (Bool-cases (ltb (length q.active) max_concurrent)) [
        | inl e ↦
            rw (e, start_loop)
              (start_loop-is_coming pending (start_one clock spawns token q) u (moved))
        | inr e ↦ rw (e, start_loop) h
      ]
    where
      moved : (contains u pending || contains u (start_one clock spawns token q).active) ≡ true
      moved =
          unfold start_one in
          unfold contains in ground (arith, h, all_spawn token, contains-add q.active token u)

  enqueued-is_coming :
      (q : Queue) (u : String) → is_coming (start_pending clock spawns (enqueue q u)) u ≡ true
  unfolding start_pending
  enqueued-is_coming q u =
      start_loop-is_coming (enqueue q u).pending (enqueue q u) u
        (unfold enqueue in ground (arith, contains-add_last q.pending u u, eq_refl u))

  finish-is_coming :
      (resolve : String → String) (q : Queue) (t : String)
      → ((u : String) → contains u q.pending_set ≡ contains u q.pending)
      → contains t q.rerun ≡ true
      → resolve t ≢ ""
      → is_coming (finish clock spawns resolve q t) (resolve t) ≡ true
  unfolding finish start_pending
  finish-is_coming resolve q t mirrored again filled =
      elim (Bool-cases (contains (resolve t) q.pending_set)) [
        | inl e ↦
            rw (again, named, e, finish)
              (start_loop-is_coming q.pending ended (resolve t)
                (ground (arith, e, mirrored (resolve t))))
        | inr e ↦ rw (again, named, e, finish) (enqueued-is_coming ended (resolve t))
      ]
    where
      ended : Queue
      ended = record q {
        active = discard q.active t;
        rerun = discard q.rerun t;
        threads = drop_one q.threads t;
      }

      named : str_eq (resolve t) "" ≡ false
      named = ground (arith, eq_iff (resolve t) "", filled)

-- In a sound queue, a failed image that asks for a check of an account that is active while a thread
-- checks it under the same token is not lost: the call answers that a check is coming, and once that
-- thread has ended, its token not rotated in between, and the executor takes every thread, the token
-- that the checked one then leads to, if it is not empty, is pending or active.
pub failure_during_check_is_checked :
    (clock : String → ℕ) (spawns : String → Bool) (resolve : String → String) (now : ℕ) (q : Queue)
    (token t : String)
    → IsSound q
    → ((u : String) → spawns u ≡ true)
    → token ≢ ""
    → resolve t ≢ ""
    → active_token resolve q.active (resolve token) ≡ some t
    → contains t q.threads ≡ true
    → let r = schedule clock spawns resolve now q token true in
      (r.1 ≡ true)
      × (is_coming (call_queue r.0 (finishes clock spawns resolve t)) (resolve t) ≡ true)
unfolding schedule call_queue
failure_during_check_is_checked clock spawns resolve now q token t s all_spawn filled kept active
      runs =
    let scheduled : schedule clock spawns resolve now q token true ≡ (noted, true) =
      ground (arith, eq_iff token "", filled, active) in
    rw scheduled (
      refl,
      rw runs (
          finish-is_coming clock spawns all_spawn resolve noted t s.mirrored
            (ground (arith, contains-add q.rerun t t, eq_refl t)) kept),
    )
  where
    noted : Queue
    noted = record q { rerun = add q.rerun t; started_at = keep_recent now q.active q.started_at }
