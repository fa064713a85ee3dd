-- ===== src/Accounts/RefreshQueue/Blocked.antt =====
-- A token that is rotated while it is checked keeps its place among the active tokens.
use jove_mage.Prelude.{
  ℕ, ◌+◌, String, ◌≡◌, refl, ◌∙◌, ap, subst, inl, inr, Bool, true, false, not, ◌&&◌, List, [], ◌∷◌,
  length, ltb, arith, eq_iff, eq_refl, str_eq, contains, Bool-cases, Option-cases, Distinct, sym,
  Dict,
}
use jove_mage.Accounts.RefreshQueue.Sets.{add, discard, contains-add, contains-discard}
use jove_mage.Accounts.RefreshQueue.{
  Queue, max_concurrent, dedup_time, start_loop, start_pending, enqueue, drop_one, keep_recent,
  active_token, last_start, schedule, finish, rotate_queue, rewrite_set,
}
use jove_mage.Accounts.RefreshQueue.Sound.{
  rewrite_set-Distinct, Call, schedules, finishes, rotates, call_queue, call_all,
}

-- As many tokens are active as may be, each once, and no thread runs.
abbrev pub IsBlocked : Queue → Type 0
IsBlocked q = (length q.active ≡ max_concurrent) × Distinct q.active × (q.threads ≡ [])

-- Each rotation leads to a token that is not active.
abbrev pub Renews : Queue → Call → Type 0
Renews q (schedules clock spawns resolve now token force) = Unit
Renews q (finishes clock spawns resolve token) = Unit
Renews q (rotates old new) = contains new q.active ≡ false

abbrev pub AllRenew : Queue → List Call → Type 0
AllRenew q [] = Unit
AllRenew q (call ∷ calls) = Renews q call × AllRenew (call_queue q call) calls

-- The active tokens and the threads of two queues agree.
abbrev Alike : Queue → Queue → Type 0
Alike q r = (r.active ≡ q.active) × (r.threads ≡ q.threads)

discard-away : (set : List String) (t : String) → contains t set ≡ false → discard set t ≡ set
unfolding discard contains
discard-away [] t h = refl
discard-away (s ∷ set) t h = ground (arith, discard-away set t, h, eq_iff s t)

module _ (clock : String → ℕ) (spawns : String → Bool) where
  start_full :
      (pending : List String) (q : Queue)
      → length q.active ≡ max_concurrent
      → Alike q (start_loop clock spawns pending q)
  unfolding start_loop
  start_full [] q full = (refl, refl)
  start_full (token ∷ pending) q full =
      let e : ltb (length q.active) max_concurrent ≡ false = ground (arith, full) in
      rw (e, start_loop) (refl, refl)

  start_pending_full :
      (q : Queue) → length q.active ≡ max_concurrent → Alike q (start_pending clock spawns q)
  unfolding start_pending
  start_pending_full q full = start_full q.pending q full

  start_enqueued_full :
      (q : Queue) (t : String)
      → length q.active ≡ max_concurrent
      → Alike q (start_pending clock spawns (enqueue q t))
  start_enqueued_full q t full =
      let (a, b) = start_pending_full (enqueue q t) (unfold enqueue in full) in
      (a ∙ unfold enqueue in refl, b ∙ unfold enqueue in refl)

  module _ (resolve : String → String) where
    schedule_full :
        (now : ℕ) (q : Queue) (token : String) (force : Bool)
        → length q.active ≡ max_concurrent
        → Alike q (schedule clock spawns resolve now q token force).0
    unfolding schedule
    schedule_full now q token force full = elim (Bool-cases (str_eq token "")) [
      | inl e ↦ rw (e, schedule) (refl, refl)
      | inr e ↦ elim (Option-cases (active_token resolve q.active (resolve token))) [
        | inr (t, f) ↦ elim (Bool-cases force) [
          | inl g ↦ rw (e, f, g, schedule) (refl, refl)
          | inr g ↦ rw (e, f, g, schedule) (refl, refl)
        ]
        | inl f ↦ elim (Bool-cases (contains (resolve token) q.pending_set)) [
          | inl g ↦ rw (e, f, g, schedule) (refl, refl)
          | inr g ↦
              elim (Bool-cases
                (not force && ltb now (last_start resolve started (resolve token) + dedup_time))) [
                  | inl h ↦ rw (e, f, g, h, schedule) (refl, refl)
                  | inr h ↦
                      rw (e, f, g, h, schedule)
                        (start_enqueued_full (record q { started_at = started }) (resolve token)
                          full)
                ]
        ]
      ]
    ]
      where
        started : Dict ℕ
        started = keep_recent now q.active q.started_at

    -- The end of a thread whose token is not active any more.
    finish_renewed :
        (q : Queue) (token : String)
        → length q.active ≡ max_concurrent
        → contains token q.active ≡ false
        → let r = finish clock spawns resolve q token in
          (r.active ≡ q.active) × (r.threads ≡ drop_one q.threads token)
    unfolding finish
    finish_renewed q token full away =
        elim (Bool-cases (
          contains token q.rerun
          && not (str_eq (resolve token) "")
          && not (contains (resolve token) q.pending_set))) [
            | inl e ↦
                let (a, t) = start_enqueued_full q' (resolve token) still in
                rw (e, finish) (a ∙ same, t)
            | inr e ↦ let (a, t) = start_pending_full q' still in rw (e, finish) (a ∙ same, t)
          ]
      where
        same : discard q.active token ≡ q.active
        same = discard-away q.active token away

        still : length (discard q.active token) ≡ max_concurrent
        still = ap length same ∙ full

        q' : Queue
        q' = record q {
          active = discard q.active token;
          rerun = discard q.rerun token;
          threads = drop_one q.threads token;
        }

finish_blocked :
    (clock : String → ℕ) (spawns : String → Bool) (resolve : String → String) (q : Queue)
    (token : String)
    → q.threads ≡ []
    → call_queue q (finishes clock spawns resolve token) ≡ q
unfolding call_queue contains
finish_blocked clock spawns resolve q token idle = rw (idle, contains) refl

length-add_new :
    (set : List String) (t : String) → contains t set ≡ false → length (add set t) ≡ length set + 1
unfolding add
length-add_new set t h = ground (arith, h)

length-discard_in :
    (set : List String) (t : String)
    → Distinct set
    → contains t set ≡ true
    → length (discard set t) + 1 ≡ length set
unfolding discard contains
length-discard_in [] t d h = absurd (ground (arith, h))
length-discard_in (s ∷ set) t d h = elim (Bool-cases (str_eq s t)) [
  | inl e ↦
      let away : contains t set ≡ false = ground (arith, d.0, e, eq_iff s t) in
      rw e (ground (arith, ap length (discard-away set t away)))
  | inr e ↦ rw e (ground (arith, length-discard_in set t d.1 (ground (arith, h, e))))
]

length-renewed :
    (set : List String) (old new : String)
    → Distinct set
    → contains new set ≡ false
    → length (rewrite_set old new set) ≡ length set
unfolding rewrite_set
length-renewed set old new d fresh = elim (Bool-cases (contains old set)) [
  | inl e ↦
      let away : contains new (discard set old) ≡ false =
        ground (arith, contains-discard set old new, fresh) in
      rw e (omega (arith, length-add_new (discard set old) new away, length-discard_in set old d e))
  | inr e ↦ rw e refl
]

call_queue-IsBlocked :
    (q : Queue) (call : Call) → Renews q call → IsBlocked q → IsBlocked (call_queue q call)
unfolding call_queue
call_queue-IsBlocked q (schedules clock spawns resolve now token force) n (full, once, idle) =
    let (a, t) = schedule_full clock spawns resolve now q token force full in
    (ap length a ∙ full, rw a once, t ∙ idle)
call_queue-IsBlocked q (finishes clock spawns resolve token) n (full, once, idle) =
    let same = finish_blocked clock spawns resolve q token idle in
    (
      ap (λ r. length r.active) same ∙ full,
      subst (λ r. Distinct r.active) (sym same) once,
      ap (λ r. r.threads) same ∙ idle,
    )
call_queue-IsBlocked q (rotates old new) n (full, once, idle) =
    unfold rotate_queue in
    (
      length-renewed q.active old new once n ∙ full,
      rewrite_set-Distinct old new q.active once,
      idle,
    )

call_all-IsBlocked :
    (q : Queue) (calls : List Call) → AllRenew q calls → IsBlocked q → IsBlocked (call_all q calls)
unfolding call_all
call_all-IsBlocked q [] n b = b
call_all-IsBlocked q (call ∷ calls) n b =
    call_all-IsBlocked (call_queue q call) calls n.1 (call_queue-IsBlocked q call n.0 b)

-- A token that is rotated before its thread ends leaves the new one active, without a thread.
renewed_stays :
    (q : Queue) (old new : String) (clock : String → ℕ) (spawns : String → Bool)
    (resolve : String → String)
    → length q.active ≡ max_concurrent
    → Distinct q.active
    → contains new q.active ≡ false
    → contains old q.threads ≡ true
    → str_eq old new ≡ false
    → let r = call_queue (rotate_queue q old new) (finishes clock spawns resolve old) in
      (r.active ≡ rewrite_set old new q.active) × (r.threads ≡ drop_one q.threads old)
unfolding call_queue rotate_queue
renewed_stays q old new clock spawns resolve full once fresh runs other = rw runs (
    finish_renewed clock spawns resolve (rotate_queue q old new) old
      (length-renewed q.active old new once fresh ∙ full) away)
  where
    away : contains old (rewrite_set old new q.active) ≡ false
    away =
        unfold rewrite_set in
        ground (
          arith,
          contains-add (discard q.active old) new old,
          contains-discard q.active old old,
          eq_refl old,
          eq_iff old new,
          eq_iff new old,
          other,
        )

rewrite_first :
    (a b c : String)
    → str_eq a b ≡ false
    → str_eq c b ≡ false
    → rewrite_set a c (a ∷ b ∷ []) ≡ c ∷ b ∷ []
unfolding rewrite_set add discard contains
rewrite_first a b c ab cb =
    ground (arith, ab, cb, eq_refl a, eq_iff a b, eq_iff b a, eq_iff c b, eq_iff b c)

rewrite_second :
    (b c d : String)
    → str_eq c b ≡ false
    → str_eq d c ≡ false
    → rewrite_set b d (c ∷ b ∷ []) ≡ d ∷ c ∷ []
unfolding rewrite_set add discard contains
rewrite_second b c d cb dc =
    ground (arith, cb, dc, eq_refl b, eq_iff c b, eq_iff b c, eq_iff d c, eq_iff c d)

-- The tokens of two checks and those that they are rotated to, all different.
record Apart (a b c d : String) : Type 0 where
  ab : str_eq a b ≡ false
  ac : str_eq a c ≡ false
  cb : str_eq c b ≡ false
  bd : str_eq b d ≡ false
  dc : str_eq d c ≡ false

apart : (a b c d : String) → Distinct (a ∷ b ∷ c ∷ d ∷ []) → Apart a b c d
unfolding contains
apart a b c d h = record {
  ab = ground (arith, h, eq_iff a b, eq_iff b a);
  ac = ground (arith, h, eq_iff a c, eq_iff c a);
  cb = ground (arith, h, eq_iff c b, eq_iff b c);
  bd = ground (arith, h, eq_iff b d, eq_iff d b);
  dc = ground (arith, h, eq_iff d c, eq_iff c d);
}

pair-Distinct : (a b : String) → str_eq a b ≡ false → Distinct (a ∷ b ∷ [])
unfolding contains
pair-Distinct a b h = (ground (arith, h, eq_iff a b, eq_iff b a), (refl, tt))

pair-fresh :
    (a b c : String) → str_eq a c ≡ false → str_eq b c ≡ false → contains c (a ∷ b ∷ []) ≡ false
unfolding contains
pair-fresh a b c ac bc = ground (arith, ac, bc)

head-contains : (a : String) (xs : List String) → contains a (a ∷ xs) ≡ true
unfolding contains
head-contains a xs = ground (arith, eq_refl a)

head-drop_one : (a : String) (xs : List String) → drop_one (a ∷ xs) a ≡ xs
unfolding drop_one
head-drop_one a xs = ground (arith, eq_refl a)

sym-apart : (a b : String) → str_eq a b ≡ false → str_eq b a ≡ false
sym-apart a b h = ground (arith, h, eq_iff a b, eq_iff b a)

-- Where two checks run, each under its own token, and each token is rotated before its check ends, to
-- tokens that differ from these and from one another, the queue is blocked: whatever failures, ends of threads and rotations to tokens that are not
-- active follow, two tokens stay active and no thread runs, so that no check is started any more.
pub renewed_checks_block_the_queue :
    (q : Queue) (a b c d : String) (clock : String → ℕ) (spawns : String → Bool)
    (resolve : String → String) (calls : List Call)
    → q.active ≡ a ∷ b ∷ []
    → q.threads ≡ a ∷ b ∷ []
    → Distinct (a ∷ b ∷ c ∷ d ∷ [])
    → let s = call_all q (
        rotates a c
        ∷ finishes clock spawns resolve a
        ∷ rotates b d
        ∷ finishes clock spawns resolve b
        ∷ []) in
      AllRenew s calls
      → let r = call_all s calls in (length r.active ≡ max_concurrent) × (r.threads ≡ [])
unfolding call_all call_queue rotate_queue
renewed_checks_block_the_queue q a b c d clock spawns resolve calls active threads distinct renew =
    let (full, once, idle) = call_all-IsBlocked s2 calls renew blocked in (full, idle)
  where
    n : Apart a b c d
    n = apart a b c d distinct

    s1 : Queue
    s1 = call_queue (call_queue q (rotates a c)) (finishes clock spawns resolve a)

    s2 : Queue
    s2 = call_queue (call_queue s1 (rotates b d)) (finishes clock spawns resolve b)

    first : (s1.active ≡ c ∷ b ∷ []) × (s1.threads ≡ b ∷ [])
    first =
        let (x, y) =
          renewed_stays q a c clock spawns resolve (rw active refl)
            (rw active (pair-Distinct a b n.ab))
            (rw active (pair-fresh a b c n.ac (sym-apart c b n.cb)))
            (rw threads (head-contains a (b ∷ []))) n.ac in
        (
          x ∙ ap (rewrite_set a c) active ∙ rewrite_first a b c n.ab n.cb,
          y ∙ ap (λ ts. drop_one ts a) threads ∙ head-drop_one a (b ∷ []),
        )

    second : (s2.active ≡ d ∷ c ∷ []) × (s2.threads ≡ [])
    second =
        let (x, y) =
          renewed_stays s1 b d clock spawns resolve (ap length first.0)
            (subst Distinct (sym first.0) (pair-Distinct c b n.cb))
            (ap (contains d) first.0 ∙ pair-fresh c b d (sym-apart d c n.dc) n.bd)
            (ap (contains b) first.1 ∙ head-contains b []) n.bd in
        (
          x ∙ ap (rewrite_set b d) first.0 ∙ rewrite_second b c d n.cb n.dc,
          y ∙ ap (λ ts. drop_one ts b) first.1 ∙ head-drop_one b [],
        )

    blocked : IsBlocked s2
    blocked =
        (ap length (second.0), subst Distinct (sym second.0) (pair-Distinct d c n.dc), second.1)
