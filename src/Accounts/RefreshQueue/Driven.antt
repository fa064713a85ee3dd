-- ===== src/Accounts/RefreshQueue/Driven.antt =====
-- Tokens that wait for their check come to it, as long as no token is rotated while it is active.
use jove_mage.Prelude.{
  ℕ, ◌<◌, String, ◌≡◌, refl, ap, sym, subst, ◌⊎◌, inl, inr, Bool, true, false, not, ◌&&◌, List, [],
  ◌∷◌, ◌++◌, length, ltb, arith, eq_iff, eq_refl, str_eq, contains, Bool-cases, Option-cases, ◌+◌,
  Dict,
}
use jove_mage.Accounts.RefreshQueue.Sets.{
  add, discard, contains-add, contains-discard, length-discard_member,
}
use jove_mage.Accounts.RefreshQueue.{
  Queue, max_concurrent, dedup_time, start_one, start_loop, start_pending, enqueue, drop_one,
  keep_recent, active_token, last_start, schedule, finish, rotate_queue, rewrite_set,
}
use jove_mage.Accounts.RefreshQueue.Sound.{
  IsSound, Call, schedules, finishes, rotates, call_queue, call_all, call_all-IsSound,
}

-- A thread that was started with it checks each active token.
abbrev pub IsDriven : Queue → Type 0
IsDriven q = (t : String) → contains t q.active ≡ true → contains t q.threads ≡ true

-- No active token is rotated.
abbrev pub Spares : Queue → Call → Type 0
Spares q (schedules clock spawns resolve now token force) = Unit
Spares q (finishes clock spawns resolve token) = Unit
Spares q (rotates old new) = contains old q.active ≡ false

abbrev pub IsCalm : Queue → List Call → Type 0
IsCalm q [] = Unit
IsCalm q (call ∷ calls) = Spares q call × IsCalm (call_queue q call) calls

contains-drop_one :
    (threads : List String) (token t : String)
    → str_eq token t ≡ false
    → contains t threads ≡ true
    → contains t (drop_one threads token) ≡ true
unfolding drop_one contains
contains-drop_one [] token t n h = h
contains-drop_one (u ∷ threads) token t n h =
    ground
      (arith, contains-drop_one threads token t n, h, n, eq_iff u token, eq_iff u t, eq_iff token t)

module _ (clock : String → ℕ) (spawns : String → Bool) where
  start_one-IsDriven :
      (token : String) (q : Queue) → IsDriven q → IsDriven (start_one clock spawns token q)
  unfolding start_one contains
  start_one-IsDriven token q d t h = elim (Bool-cases (spawns token)) [
    | inl e ↦ rw e (ground (arith, rw e at h, contains-add q.active token t, d t, eq_iff token t))
    | inr e ↦ rw e (
        ground (
          arith,
          rw e at h,
          contains-discard (add q.active token) token t,
          contains-add q.active token t,
          d t,
          eq_iff token t,
        ))
  ]

  start_loop-IsDriven :
      (pending : List String) (q : Queue)
      → IsDriven q
      → IsDriven (start_loop clock spawns pending q)
  unfolding start_loop
  start_loop-IsDriven [] q d = d
  start_loop-IsDriven (token ∷ pending) q d =
      elim (Bool-cases (ltb (length q.active) max_concurrent)) [
        | inl e ↦
            rw (e, start_loop)
              (start_loop-IsDriven pending (start_one clock spawns token q)
                (start_one-IsDriven token q d))
        | inr e ↦ rw (e, start_loop) d
      ]

  start_pending-IsDriven : (q : Queue) → IsDriven q → IsDriven (start_pending clock spawns q)
  unfolding start_pending
  start_pending-IsDriven q d = start_loop-IsDriven q.pending q d

  start_enqueued-IsDriven :
      (q : Queue) (t : String) → IsDriven q → IsDriven (start_pending clock spawns (enqueue q t))
  start_enqueued-IsDriven q t d = start_pending-IsDriven (enqueue q t) (unfold enqueue in d)

  module _ (resolve : String → String) where
    schedule-IsDriven :
        (now : ℕ) (q : Queue) (token : String) (force : Bool)
        → IsDriven q
        → IsDriven (schedule clock spawns resolve now q token force).0
    unfolding schedule
    schedule-IsDriven now q token force d = elim (Bool-cases (str_eq token "")) [
      | inl e ↦ rw (e, schedule) d
      | inr e ↦ elim (Option-cases (active_token resolve q.active (resolve token))) [
        | inr (t, f) ↦ elim (Bool-cases force) [
          | inl g ↦ rw (e, f, g, schedule) d
          | inr g ↦ rw (e, f, g, schedule) d
        ]
        | inl f ↦ elim (Bool-cases (contains (resolve token) q.pending_set)) [
          | inl g ↦ rw (e, f, g, schedule) d
          | inr g ↦
              elim (Bool-cases
                (not force && ltb now (last_start resolve started (resolve token) + dedup_time))) [
                  | inl h ↦ rw (e, f, g, h, schedule) d
                  | inr h ↦
                      rw (e, f, g, h, schedule)
                        (start_enqueued-IsDriven (record q { started_at = started }) (resolve token)
                          d)
                ]
        ]
      ]
    ]
      where
        started : Dict ℕ
        started = keep_recent now q.active q.started_at

    finish-IsDriven :
        (q : Queue) (token : String) → IsDriven q → IsDriven (finish clock spawns resolve q token)
    unfolding finish
    finish-IsDriven q token d =
        elim (Bool-cases (
          contains token q.rerun
          && not (str_eq (resolve token) "")
          && not (contains (resolve token) q.pending_set))) [
            | inl e ↦ rw (e, finish) (start_enqueued-IsDriven q' (resolve token) ended)
            | inr e ↦ rw (e, finish) (start_pending-IsDriven q' ended)
          ]
      where
        q' : Queue
        q' = record q {
          active = discard q.active token;
          rerun = discard q.rerun token;
          threads = drop_one q.threads token;
        }

        ended : IsDriven q'
        ended t h =
            contains-drop_one q.threads token t
              (ground (arith, h, contains-discard q.active token t))
              (d t (ground (arith, h, contains-discard q.active token t)))

call_queue-IsDriven :
    (q : Queue) (call : Call) → Spares q call → IsDriven q → IsDriven (call_queue q call)
unfolding call_queue
call_queue-IsDriven q (schedules clock spawns resolve now token force) c d =
    schedule-IsDriven clock spawns resolve now q token force d
call_queue-IsDriven q (finishes clock spawns resolve token) c d =
    elim (Bool-cases (contains token q.threads)) [
      | inl e ↦ rw e (finish-IsDriven clock spawns resolve q token d)
      | inr e ↦ rw e d
    ]
call_queue-IsDriven q (rotates old new) c d =
    unfold rotate_queue in unfold rewrite_set in rw (c, rewrite_set) d

call_all-IsDriven :
    (q : Queue) (calls : List Call) → IsCalm q calls → IsDriven q → IsDriven (call_all q calls)
unfolding call_all
call_all-IsDriven q [] c d = d
call_all-IsDriven q (call ∷ calls) c d =
    call_all-IsDriven (call_queue q call) calls c.1 (call_queue-IsDriven q call c.0 d)

-- An active token stays active where every thread is taken.
start_loop-active :
    (clock : String → ℕ) (pending : List String) (q : Queue) (u : String)
    → contains u q.active ≡ true
    → contains u (start_loop clock (λ t. true) pending q).active ≡ true
unfolding start_loop
start_loop-active clock [] q u h = h
start_loop-active clock (token ∷ pending) q u h =
    elim (Bool-cases (ltb (length q.active) max_concurrent)) [
      | inl e ↦
          rw (e, start_loop)
            (start_loop-active clock pending (start_one clock (λ t. true) token q) u
              (unfold start_one in ground (arith, h, contains-add q.active token u)))
      | inr e ↦ rw (e, start_loop) h
    ]

started_next :
    (clock : String → ℕ) (pending : List String) (q : Queue) (x : String)
    → length q.active < max_concurrent
    → contains x (start_loop clock (λ t. true) (x ∷ pending) q).active ≡ true
unfolding start_loop
started_next clock pending q x few =
    let e : ltb (length q.active) max_concurrent ≡ true = ground (arith, few) in
    rw (e, start_loop)
      (start_loop-active clock pending (start_one clock (λ t. true) x q) x
        (unfold start_one in ground (arith, contains-add q.active x x, eq_refl x)))

start_pending-next :
    (clock : String → ℕ) (q : Queue) (x : String) (xs : List String)
    → q.pending ≡ x ∷ xs
    → length q.active < max_concurrent
    → contains x (start_pending clock (λ t. true) q).active ≡ true
unfolding start_pending
start_pending-next clock q x xs first few =
    subst (λ ys. contains x (start_loop clock (λ t. true) ys q).active ≡ true) (sym first)
      (started_next clock xs q x few)

start_enqueued-next :
    (clock : String → ℕ) (q : Queue) (t x : String) (xs : List String)
    → q.pending ≡ x ∷ xs
    → length q.active < max_concurrent
    → contains x (start_pending clock (λ t. true) (enqueue q t)).active ≡ true
start_enqueued-next clock q t x xs first few =
    start_pending-next clock (enqueue q t) x (xs ++ (t ∷ []))
      (unfold enqueue in ap (λ ys. ys ++ (t ∷ [])) first) (unfold enqueue in few)

finish-starts_next :
    (clock : String → ℕ) (resolve : String → String) (q : Queue) (t x : String) (xs : List String)
    → IsSound q
    → contains t q.active ≡ true
    → q.pending ≡ x ∷ xs
    → contains x (finish clock (λ u. true) resolve q t).active ≡ true
unfolding finish
finish-starts_next clock resolve q t x xs s running first =
    elim (Bool-cases (
      contains t q.rerun
      && not (str_eq (resolve t) "")
      && not (contains (resolve t) q.pending_set))) [
        | inl e ↦ rw (e, finish) (start_enqueued-next clock q' (resolve t) x xs first few)
        | inr e ↦ rw (e, finish) (start_pending-next clock q' x xs first few)
      ]
  where
    q' : Queue
    q' = record q {
      active = discard q.active t;
      rerun = discard q.rerun t;
      threads = drop_one q.threads t;
    }

    few : length (discard q.active t) < max_concurrent
    few = omega (arith, length-discard_member q.active t running, s.few)

first_of : (xs : List String) → 0 < length xs → (t : String) × (contains t xs ≡ true)
unfolding contains
first_of [] h = absurd (omega (arith, h))
first_of (x ∷ xs) h = (x, ground (arith, eq_refl x))

-- From a sound queue whose active tokens each have a thread that was started with them, any failures,
-- ends of threads, refusals of the executor, and rotations of tokens that are not active, lead to
-- such a queue. There either no token is pending, or a thread checks an active token, and its end
-- makes the first pending token active where the executor takes its thread.
pub pending_checks_come :
    (q : Queue) (calls : List Call) (clock : String → ℕ) (resolve : String → String)
    → IsSound q
    → IsDriven q
    → IsCalm q calls
    → let r = call_all q calls in
      IsSound r
      × IsDriven r
      × ((r.pending ≡ [])
          ⊎ ((t : String) × (x : String) × (xs : List String) × (r.pending ≡ x ∷ xs)
              × (contains t r.active ≡ true)
              × (contains t r.threads ≡ true)
              × (contains x (finish clock (λ u. true) resolve r t).active ≡ true)))
pending_checks_come q calls clock resolve sound d calm = (s, driven, waits r.pending refl)
  where
    r : Queue
    r = call_all q calls

    s : IsSound r
    s = call_all-IsSound q calls sound

    driven : IsDriven r
    driven = call_all-IsDriven q calls calm d

    waits :
        (pending : List String)
        → r.pending ≡ pending
        → (r.pending ≡ [])
          ⊎ ((t : String) × (x : String) × (xs : List String) × (r.pending ≡ x ∷ xs)
              × (contains t r.active ≡ true)
              × (contains t r.threads ≡ true)
              × (contains x (finish clock (λ u. true) resolve r t).active ≡ true))
    waits [] e = inl e
    waits (x ∷ xs) e = elim s.driven [
      | inl none_left ↦ inl none_left
      | inr some_run ↦
          let (t, active) = first_of r.active some_run in
          inr (
            t,
            x,
            xs,
            e,
            active,
            driven t active,
            finish-starts_next clock resolve r t x xs s active e,
          )
    ]
