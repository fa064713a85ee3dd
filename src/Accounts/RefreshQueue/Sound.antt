-- ===== src/Accounts/RefreshQueue/Sound.antt =====
-- The bound on the active tokens, and the agreement of the queue with its set.
use jove_mage.Prelude.{
  ℕ, ◌+◌, ◌≤◌, ◌<◌, String, ◌≡◌, refl, ◌⊎◌, inl, inr, Bool, if◌then◌else◌, false, not, ◌&&◌, ◌||◌,
  List, [], ◌∷◌, map, length, ltb, arith, eq_iff, str_eq, contains, Distinct, Dict, Bool-cases,
  Option-cases,
}
use jove_mage.Accounts.RefreshQueue.Sets.{
  add, discard, from_keys, contains-add, contains-discard, contains-add_last, length-add,
  length-discard, length-discard_member, add-Distinct, discard-Distinct, append-Distinct,
  from_keys-Distinct,
}
use jove_mage.Accounts.RefreshQueue.{
  Queue, max_concurrent, dedup_time, start_one, start_loop, start_pending, enqueue, keep_recent,
  active_token, last_start, drop_one, schedule, finish, rotate_queue, rewrite_set, rewrite_token,
}

-- At most two checks run, no token is pending twice, the set and the queue of the pending tokens
-- agree, and no token is pending while none is active.
pub record IsSound (q : Queue) : Type 0 where
  pub few : length q.active ≤ max_concurrent
  pub active_once : Distinct q.active
  pub pending_once : Distinct q.pending
  pub mirrored : (t : String) → contains t q.pending_set ≡ contains t q.pending
  pub driven : (q.pending ≡ []) ⊎ (0 < length q.active)

keep_queue :
    (q : Queue) (rerun : List String) (started : Dict ℕ)
    → IsSound q
    → IsSound (record q { rerun = rerun; started_at = started })
keep_queue q rerun started s = record {
  few = s.few;
  active_once = s.active_once;
  pending_once = s.pending_once;
  mirrored = s.mirrored;
  driven = s.driven;
}

module _ (clock : String → ℕ) (spawns : String → Bool) where
  start_one-active :
      (token : String) (q : Queue)
      → length q.active < max_concurrent
      → Distinct q.active
      → let s = start_one clock spawns token q in
        (length s.active ≤ max_concurrent)
        × Distinct s.active
        × (s.pending_set ≡ discard q.pending_set token)
  unfolding start_one
  start_one-active token q few once = elim (Bool-cases (spawns token)) [
    | inl e ↦
        rw e (omega (arith, few, length-add q.active token), add-Distinct q.active token once, refl)
    | inr e ↦ rw e (
      omega (arith, few, length-add q.active token, length-discard (add q.active token) token),
      discard-Distinct (add q.active token) token (add-Distinct q.active token once),
      refl,
    )
  ]

  start_loop-IsSound :
      (pending : List String) (q : Queue)
      → length q.active ≤ max_concurrent
      → Distinct q.active
      → Distinct pending
      → ((t : String) → contains t q.pending_set ≡ contains t pending)
      → IsSound (start_loop clock spawns pending q)
  unfolding start_loop
  start_loop-IsSound [] q few once distinct same = record {
    few = few;
    active_once = once;
    pending_once = tt;
    mirrored = same;
    driven = inl refl;
  }
  start_loop-IsSound (token ∷ pending) q few once distinct same =
      elim (Bool-cases (ltb (length q.active) max_concurrent)) [
        | inl e ↦
            let (few', once', set) = start_one-active token q (ground (arith, e)) once in
            rw (e, start_loop)
              (start_loop-IsSound pending (start_one clock spawns token q) few' once' distinct.1
                (λ t. mirror (start_one clock spawns token q).pending_set t set))
        | inr e ↦
            rw (e, start_loop)
              (record {
                few = few;
                active_once = once;
                pending_once = distinct;
                mirrored = same;
                driven = inr (ground (arith, e));
              })
      ]
    where
      mirror :
          (set : List String) (t : String)
          → set ≡ discard q.pending_set token
          → contains t set ≡ contains t pending
      mirror set t h =
          unfold contains in
          rw h (
            ground
              (arith, contains-discard q.pending_set token t, same t, distinct.0, eq_iff token t))

  start_pending-IsSound :
      (q : Queue)
      → length q.active ≤ max_concurrent
      → Distinct q.active
      → Distinct q.pending
      → ((t : String) → contains t q.pending_set ≡ contains t q.pending)
      → IsSound (start_pending clock spawns q)
  unfolding start_pending
  start_pending-IsSound q few once distinct same =
      start_loop-IsSound q.pending q few once distinct same

  -- A token that is not pending is appended, and what can start is started.
  start_enqueued-IsSound :
      (q : Queue) (token : String)
      → length q.active ≤ max_concurrent
      → Distinct q.active
      → Distinct q.pending
      → ((t : String) → contains t q.pending_set ≡ contains t q.pending)
      → contains token q.pending_set ≡ false
      → IsSound (start_pending clock spawns (enqueue q token))
  unfolding enqueue
  start_enqueued-IsSound q token few once distinct same away =
      start_pending-IsSound (enqueue q token) few once
        (append-Distinct q.pending token (ground (arith, same token, away)) distinct)
        (λ t.
          ground (
            arith,
            contains-add_last q.pending token t,
            contains-add q.pending_set token t,
            same t,
          ))

  module _ (resolve : String → String) where
    schedule-IsSound :
        (now : ℕ) (q : Queue) (token : String) (force : Bool)
        → IsSound q
        → IsSound (schedule clock spawns resolve now q token force).0
    unfolding schedule
    schedule-IsSound now q token force s = elim (Bool-cases (str_eq token "")) [
      | inl e ↦ rw (e, schedule) s
      | inr e ↦ elim (Option-cases (active_token resolve q.active (resolve token))) [
        | inr (t, f) ↦ elim (Bool-cases force) [
          | inl g ↦ rw (e, f, g, schedule) (keep_queue q (add q.rerun t) started s)
          | inr g ↦ rw (e, f, g, schedule) (keep_queue q q.rerun started s)
        ]
        | inl f ↦ elim (Bool-cases (contains (resolve token) q.pending_set)) [
          | inl g ↦ rw (e, f, g, schedule) (keep_queue q q.rerun started s)
          | inr g ↦
              elim (Bool-cases
                (not force && ltb now (last_start resolve started (resolve token) + dedup_time))) [
                  | inl h ↦ rw (e, f, g, h, schedule) (keep_queue q q.rerun started s)
                  | inr h ↦
                      rw (e, f, g, h, schedule)
                        (start_enqueued-IsSound (record q { started_at = started }) (resolve token)
                          s.few s.active_once s.pending_once s.mirrored g)
                ]
        ]
      ]
    ]
      where
        started : Dict ℕ
        started = keep_recent now q.active q.started_at

    finish-IsSound :
        (q : Queue) (token : String) → IsSound q → IsSound (finish clock spawns resolve q token)
    unfolding finish
    finish-IsSound q token s =
        elim (Bool-cases (
          contains token q.rerun
          && not (str_eq (resolve token) "")
          && not (contains (resolve token) q.pending_set))) [
            | inl e ↦
                rw (e, finish)
                  (start_enqueued-IsSound q' (resolve token) few once s.pending_once s.mirrored
                    (ground (arith, e)))
            | inr e ↦ rw (e, finish) (start_pending-IsSound q' few once s.pending_once s.mirrored)
          ]
      where
        q' : Queue
        q' = record q {
          active = discard q.active token;
          rerun = discard q.rerun token;
          threads = drop_one q.threads token;
        }

        few : length (discard q.active token) ≤ max_concurrent
        few = omega (arith, length-discard q.active token, s.few)

        once : Distinct (discard q.active token)
        once = discard-Distinct q.active token s.active_once

pub rewrite_set-Distinct :
    (old new : String) (set : List String) → Distinct set → Distinct (rewrite_set old new set)
unfolding rewrite_set
rewrite_set-Distinct old new set d = elim (Bool-cases (contains old set)) [
  | inl e ↦ rw e (add-Distinct (discard set old) new (discard-Distinct set old d))
  | inr e ↦ rw e d
]

length-rewrite_set :
    (old new : String) (set : List String) → length (rewrite_set old new set) ≤ length set
unfolding rewrite_set
length-rewrite_set old new set =
    ground (arith, length-discard_member set old, length-add (discard set old) new)

length-add_pos : (set : List String) (t : String) → 0 < length (add set t)
unfolding add contains
length-add_pos [] t = omega arith
length-add_pos (x ∷ xs) t = ground arith

rewrite_set_pos :
    (old new : String) (set : List String) → 0 < length set → 0 < length (rewrite_set old new set)
unfolding rewrite_set
rewrite_set_pos old new set h = ground (arith, length-add_pos (discard set old) new)

rotate-IsSound : (q : Queue) (old new : String) → IsSound q → IsSound (rotate_queue q old new)
unfolding rotate_queue
rotate-IsSound q old new s = record {
  few = omega (arith, length-rewrite_set old new q.active, s.few);
  active_once = rewrite_set-Distinct old new q.active s.active_once;
  pending_once = elim (Bool-cases renamed) [
    | inl e ↦ rw e (from_keys-Distinct (map (rewrite_token old new) q.pending))
    | inr e ↦ rw e s.pending_once
  ];
  mirrored = elim (Bool-cases renamed) [ inl e ↦ rw e (λ t. refl) | inr e ↦ rw e s.mirrored ];
  driven = elim s.driven [
    | inl e ↦ inl (rw e (unfold from_keys in ground arith))
    | inr h ↦ inr (rewrite_set_pos old new q.active h)
  ];
}
  where
    renamed : Bool
    renamed = contains old q.pending_set || contains old q.pending

-- What happens to the queue: a failed image, the end of a thread, a rotated token. What a token
-- leads to, the clock and the executor may be others each time.
pub data Call : Type 0 where
  schedules : (String → ℕ) → (String → Bool) → (String → String) → ℕ → String → Bool → Call
  finishes : (String → ℕ) → (String → Bool) → (String → String) → String → Call
  rotates : String → String → Call

unfoldable pub call_queue : Queue → Call → Queue
unfolding schedule finish rotate_queue contains
call_queue q (schedules clock spawns resolve now token force) =
    (schedule clock spawns resolve now q token force).0
call_queue q (finishes clock spawns resolve token) =
    let ended = finish clock spawns resolve q token in if contains token q.threads then ended else q
call_queue q (rotates old new) = rotate_queue q old new

unfoldable pub call_all : Queue → List Call → Queue
call_all q [] = q
call_all q (call ∷ calls) = call_all (call_queue q call) calls

call_queue-IsSound : (q : Queue) (call : Call) → IsSound q → IsSound (call_queue q call)
unfolding call_queue
call_queue-IsSound q (schedules clock spawns resolve now token force) s =
    schedule-IsSound clock spawns resolve now q token force s
call_queue-IsSound q (finishes clock spawns resolve token) s =
    elim (Bool-cases (contains token q.threads)) [
      | inl e ↦ rw e (finish-IsSound clock spawns resolve q token s)
      | inr e ↦ rw e s
    ]
call_queue-IsSound q (rotates old new) s = rotate-IsSound q old new s

-- Where at most two tokens are active, no token is pending twice, the set and the queue of the
-- pending tokens agree, and no token is pending while none is active, all this holds after any
-- failures, ends of threads and rotations of tokens, in whatever order, and whichever threads the
-- executor refuses.
pub call_all-IsSound : (q : Queue) (calls : List Call) → IsSound q → IsSound (call_all q calls)
unfolding call_all
call_all-IsSound q [] s = s
call_all-IsSound q (call ∷ calls) s =
    call_all-IsSound (call_queue q call) calls (call_queue-IsSound q call s)
