-- ===== src/Accounts/Tests.antt =====
-- Runs of the account pool, and instances of its theorems.
use jove_mage.Prelude.{
  ◌+◌, ◌-◌, ◌≤◌, ◌≡◌, ◌≢◌, ◌⊎◌, inl, inr, refl, String, true, false, none, some, List, [], ◌∷◌,
  arith, get, strip, lower, contains, Distinct, has, size, length, values, eq_iff, str_eq, str_neq,
  if◌then◌else◌,
}
use jove_mage.Accounts.{Account, Pool, Config}
use jove_mage.Accounts.Sample.{account, pool, config, any, queue, pool-IsUnique}
use jove_mage.Accounts.Normal.{
  normalize_account, renormalize, to_item, normalize_source_type, is_codex,
  extract_image_quota_from_limits, normal_fields, merged_quota, merged_unknown, or_time,
  is_untried_codex,
}
use jove_mage.Accounts.Normal.Stable.{normalize_twice}
use jove_mage.Accounts.Tokens.{resolve_access_token, resolve_loop, goes_on}
use jove_mage.Accounts.Tokens.Resolve.{resolve_ends}
use jove_mage.Accounts.Selection.{
  picked, waits, quota_exhausted, unavailable, acquire_next_candidate_token, inflight,
  max_concurrency, take_slot, is_matched, no_ready_candidate_error, list_ready_candidate_tokens,
  list_available_candidate_tokens, is_ready, is_image_account_available, matches, is_open,
}
use jove_mage.Accounts.Selection.Slots.{
  Listed, picked_slot, slots_bounded, SlotCall, slot_calls, takes, gives, IsWithin,
}
use jove_mage.Accounts.Selection.Refusal.{refusal_kind}
use jove_mage.Accounts.Outcomes.{mark_image_result, report_exhausted}
use jove_mage.Accounts.Outcomes.Accounting.{InUse, image_result_books}
use jove_mage.Accounts.Outcomes.Exhaustion.{Gone, exhausted_is_out}
use jove_mage.Accounts.Removal.{targets, delete_accounts}
use jove_mage.Accounts.Removal.Forgotten.{deleted_is_gone}
use jove_mage.Accounts.Rotation.{TokenData, apply_refreshed_tokens}
use jove_mage.Accounts.Rotation.Moves.{rotation_moves_all}
use jove_mage.Accounts.Keepalive.{Due, due_items, keepalive_items, keepalive_due_at}
use jove_mage.Accounts.Keepalive.Earliest.{Member, earliest_are_renewed}
use jove_mage.Accounts.RefreshQueue.{
  Queue, schedule, active_token, last_start, start_pending, start_loop, start_one, enqueue,
}
use jove_mage.Accounts.RefreshQueue.Sound.{
  IsSound, Call, schedules, finishes, rotates, call_queue, call_all,
}
use jove_mage.Accounts.RefreshQueue.Driven.{IsCalm, pending_checks_come}
use jove_mage.Accounts.RefreshQueue.Blocked.{renewed_checks_block_the_queue}
use jove_mage.Accounts.RefreshQueue.Reruns.{is_coming, failure_during_check_is_checked}

picks_a : acquire_next_candidate_token pool config any [] ≡ (take_slot pool "a", picked "a")
unfolding acquire_next_candidate_token take_slot list_ready_candidate_tokens is_ready
    is_image_account_available strip normalize_source_type lower matches is_open
    list_available_candidate_tokens get max_concurrency
picks_a = refl

picked_slot_example : inflight (take_slot pool "a") "a" ≡ inflight pool "a" + 1
picked_slot_example = (picked_slot pool (take_slot pool "a") config any [] "a" "b" picks_a).1

pool-IsWithin : IsWithin config pool
unfolding inflight get max_concurrency
pool-IsWithin t = ground (arith, eq_iff "a" t)

abbrev slot_run : List SlotCall
slot_run = takes any [] ∷ takes any [] ∷ gives "a" ∷ []

slots_bounded_example : inflight (slot_calls config pool slot_run) "a" ≤ max_concurrency config
slots_bounded_example = slots_bounded config pool slot_run pool-IsWithin "a"

abbrev narrow : Config
narrow = record config { image_account_concurrency = 1 }

must_wait : acquire_next_candidate_token pool narrow any [] ≡ (pool, waits)
unfolding acquire_next_candidate_token list_ready_candidate_tokens is_ready
    is_image_account_available strip normalize_source_type lower matches is_open
    list_available_candidate_tokens get max_concurrency
must_wait = refl

abbrev limited_pool : Pool
limited_pool = record pool { accounts = ("b", account "b" "限流" 0) ∷ [] }

refusal_kind_example :
    ((no_ready_candidate_error limited_pool any [] ≡ quota_exhausted)
      × ((a : Account) × (Listed a (values limited_pool.accounts)) × (is_matched any [] a ≡ true))
      × ((a : Account)
          → Listed a (values limited_pool.accounts)
          → is_matched any [] a ≡ true
          → a.status ≡ "限流"))
    ⊎ ((no_ready_candidate_error limited_pool any [] ≡ unavailable)
        × (((a : Account) → Listed a (values limited_pool.accounts) → is_matched any [] a ≡ false)
            ⊎ ((a : Account) × (Listed a (values limited_pool.accounts))
                × (is_matched any [] a ≡ true)
                × (a.status ≢ "限流"))))
refusal_kind_example = refusal_kind limited_pool any []

a-InUse : InUse pool "a" (account "a" "正常" 1)
unfolding strip get
a-InUse = record { trimmed = refl; known = refl; filled = str_neq "a" "" refl; own = refl }

a-normalized : renormalize 9 (account "a" "正常" 1) ≡ some (account "a" "正常" 1)
unfolding renormalize normalize_account strip normalize_source_type lower is_codex
    extract_image_quota_from_limits to_item normal_fields merged_quota merged_unknown or_time
    is_untried_codex
a-normalized = refl

image_result_books_example :
    inflight (mark_image_result 9 pool "a" true none none none).0 "a" ≡ inflight pool "a" - 1
image_result_books_example =
    (image_result_books 9 pool "a" (account "a" "正常" 1) true none none none a-InUse a-normalized).0

exhausted_is_out_example :
    let r = report_exhausted 9 config pool "a" "" in
    ((true ≡ true) × Gone r.0 "a" × (r.1 ≡ none))
    ⊎ ((true ≡ false)
        × (inflight r.0 "a" ≡ inflight pool "a" - 1)
        × (r.0.saved ≡ values r.0.accounts)
        × ((b : Account) × (r.1 ≡ some b)
            × (b.status ≡ "限流")
            × (b.quota ≡ 0)
            × (is_image_account_available b ≡ false)
            × ((other : String)
                → get r.0.accounts other
                  ≡ (if str_eq "a" other then some b else get pool.accounts other))))
exhausted_is_out_example = exhausted_is_out 9 config pool "a" "" (account "a" "正常" 1) a-InUse

b_is_away : contains "b" (targets pool ("z" ∷ [])) ≡ false
unfolding targets resolve_access_token goes_on strip contains
b_is_away = refl

deleted_is_gone_example :
    get (delete_accounts pool ("z" ∷ [])).0.accounts (resolve_access_token pool "z") ≡ none
deleted_is_gone_example =
    (deleted_is_gone pool ("z" ∷ []) "z" "b" pool-IsUnique (str_neq "z" "" refl)
      (unfold contains in refl) b_is_away).0

-- Two aliases that lead to each other.
abbrev cyclic : Pool
cyclic = record pool { token_aliases = ("y", "x") ∷ ("x", "y") ∷ [] }

resolve_ends_example :
    let r =
      resolve_loop
        (size cyclic.token_aliases)
        cyclic.accounts
        cyclic.token_aliases
        (strip "x")
        [] in
    goes_on cyclic.accounts cyclic.token_aliases r.0 r.1 ≡ false
resolve_ends_example = (resolve_ends cyclic "x").1

normalized_a : normalize_account 7 (to_item (account "a" "正常" 1)) ≡ some (account "a" "正常" 1)
unfolding normalize_account strip normalize_source_type lower is_codex
    extract_image_quota_from_limits to_item normal_fields merged_quota merged_unknown or_time
    is_untried_codex
normalized_a = refl

normalize_twice_example : renormalize 8 (account "a" "正常" 1) ≡ some (account "a" "正常" 1)
normalize_twice_example =
    normalize_twice 7 8 (to_item (account "a" "正常" 1)) (account "a" "正常" 1) normalized_a

queue-IsSound : IsSound queue
unfolding contains
queue-IsSound = record {
  few = omega arith;
  active_once = (refl, tt);
  pending_once = tt;
  mirrored = λ t. refl;
  driven = inl refl;
}

-- A second check starts, a third waits, a token that waits is rotated, and the first check ends.
abbrev queue_run : List Call
queue_run =
    schedules (λ t. 6) (λ t. true) (λ t. t) 6 "b" true
    ∷ schedules (λ t. 7) (λ t. true) (λ t. t) 7 "c" true
    ∷ rotates "c" "n"
    ∷ finishes (λ t. 8) (λ t. false) (λ t. t) "a"
    ∷ []

queue_run-IsCalm : IsCalm queue queue_run
unfolding call_queue schedule contains active_token last_start start_pending start_loop start_one
    enqueue
queue_run-IsCalm = (tt, (tt, (refl, (tt, tt))))

pending_checks_come_example : length (call_all queue queue_run).active ≤ 2
pending_checks_come_example =
    (pending_checks_come queue queue_run (λ t. 9) (λ t. t) queue-IsSound (λ t h. h)
      queue_run-IsCalm).0.few

-- Two checks run.
abbrev two_checks : Queue
two_checks = record queue { active = "a" ∷ "b" ∷ []; threads = "a" ∷ "b" ∷ [] }

abbrev later : List Call
later = schedules (λ t. 9) (λ t. true) (λ t. t) 9 "c" true ∷ []

a_b_c_d-Distinct : Distinct ("a" ∷ "b" ∷ "n" ∷ "m" ∷ [])
unfolding contains
a_b_c_d-Distinct = (refl, (refl, (refl, (refl, tt))))

renewed_checks_block_the_queue_example :
    let s = call_all two_checks (
      rotates "a" "n"
      ∷ finishes (λ t. 8) (λ t. true) (λ t. t) "a"
      ∷ rotates "b" "m"
      ∷ finishes (λ t. 8) (λ t. true) (λ t. t) "b"
      ∷ []) in
    (length (call_all s later).active ≡ 2) × ((call_all s later).threads ≡ [])
renewed_checks_block_the_queue_example =
    renewed_checks_block_the_queue two_checks "a" "b" "n" "m" (λ t. 8) (λ t. true) (λ t. t) later
      refl refl a_b_c_d-Distinct (tt, tt)

failure_during_check_is_checked_example :
    let r = schedule (λ t. 6) (λ t. true) (resolve_access_token pool) 6 queue "z" true in
    (r.1 ≡ true)
    × (is_coming
          (call_queue r.0 (finishes (λ t. 6) (λ t. true) (resolve_access_token pool) "a"))
          (resolve_access_token pool "a")
        ≡ true)
unfolding resolve_access_token goes_on strip
failure_during_check_is_checked_example =
    failure_during_check_is_checked (λ t. 6) (λ t. true) (resolve_access_token pool) 6 queue "z" "a"
      queue-IsSound (λ u. refl) (str_neq "z" "" refl) (str_neq "a" "" refl)
      (unfold active_token in refl) (unfold contains in refl)

abbrev fresh_tokens : TokenData
fresh_tokens = record { access_token = "n"; refresh_token = some "s"; id_token = none; status = "" }

rotation_moves_all_example :
    (apply_refreshed_tokens 9 pool queue "a" fresh_tokens (some "a") (some "r")).2 ≡ some "n"
unfolding strip has get
rotation_moves_all_example =
    (rotation_moves_all 9 pool queue "a" "n" "b" fresh_tokens (account "a" "正常" 1) a-InUse refl
      (str_neq "n" "" refl) (str_neq "a" "n" refl) (str_neq "b" "a" refl) (str_neq "b" "n" refl)
      refl).0

keepalive_a :
    Member
      (record { due_at = 259200000001; token = "a" })
      (keepalive_items (λ t. none) 300000000000 pool)
unfolding keepalive_items keepalive_due_at due_items strip
keepalive_a = inl refl

abbrev b_due : Due
b_due = record { due_at = 259200000001; token = "b" }

earliest_are_renewed_example :
    Member b_due (keepalive_items (λ t. none) 300000000000 pool) ⊎ (259200000001 ≤ 259200000001)
unfolding due_items keepalive_due_at strip
earliest_are_renewed_example =
    (earliest_are_renewed (λ t. none) 300000000000 pool
      (record { due_at = 259200000001; token = "a" }) b_due keepalive_a (inr (inl refl))).2
