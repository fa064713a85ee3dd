-- ===== src/ChatCache.antt =====
-- services/protocol/chat_completion_cache.py: the cache of chat completions. A call in flight is an
-- object that its owner and those who wait share: it stands in `calls` under its identity. Each
-- stretch under the lock is one step, and `copy.deepcopy` is the identity on values. The keys, which
-- are hashes, are arguments.
pub mod Internal
pub mod Messages
pub mod Bound
pub mod Single
pub mod Answers
mod Tests
use jove_mage.Prelude.{
  ℕ, zero, suc, ◌+◌, ◌*◌, String, Bool, true, false, not, ◌&&◌, ◌||◌, Option, none, some, List, [],
  ◌∷◌, ltb, str_eq, if◌then◌else◌, Dict, get, put, pop, size, Value, Items,
}
use jove_mage.ChatCache.Internal.{strip_value, strip_items}

pub record CacheEntry : Type 0 where
  pub expires_at : ℕ
  pub value : Value

pub record InflightCall : Type 0 where
  pub done : Bool
  pub value : Option Value
  pub error : Option String

pub record Cache : Type 0 where
  pub entries : Dict CacheEntry
  pub inflight : Dict String
  pub calls : Dict InflightCall

-- `get_chat_completion_cache_settings`, as far as the cache reads it.
pub record Settings : Type 0 where
  pub enabled : Bool
  pub stream_cache : Bool
  pub ttl_seconds : ℕ
  pub max_entries : ℕ
  pub dedupe_inflight : Bool

-- `clear`
unfoldable pub clear : Cache → Cache
clear c = record c { entries = []; inflight = [] }

-- int(settings.get("max_entries") or 1)
unfoldable pub limit : Settings → ℕ
limit s = elim s.max_entries [ zero ↦ 1 | suc n ↦ suc n ]

-- The entries that are not expired.
unfoldable pub drop_expired : ℕ → Dict CacheEntry → Dict CacheEntry
drop_expired now [] = []
drop_expired now ((key, e) ∷ entries) =
    let rest = drop_expired now entries in if ltb now e.expires_at then (key, e) ∷ rest else rest

-- min(entries, key=expires_at), the first of them, where the best so far is known.
unfoldable pub oldest : String → ℕ → Dict CacheEntry → String
oldest best at [] = best
oldest best at ((key, e) ∷ entries) =
    if ltb e.expires_at at then oldest key e.expires_at entries else oldest best at entries

unfoldable pub drop_oldest : Dict CacheEntry → Dict CacheEntry
unfolding oldest
drop_oldest [] = []
drop_oldest ((key, e) ∷ entries) = pop ((key, e) ∷ entries) (oldest key e.expires_at entries)

-- The `while`, for at most so many rounds.
unfoldable pub shrink : ℕ → ℕ → Dict CacheEntry → Dict CacheEntry
shrink zero max_entries entries = entries
shrink (suc fuel) max_entries entries = elim (ltb max_entries (size entries)) [
  | true ↦ shrink fuel max_entries (drop_oldest entries)
  | false ↦ entries
]

-- `_prune_locked`; each round drops an entry, so as many rounds as entries are enough.
unfoldable pub prune_entries : ℕ → ℕ → Dict CacheEntry → Dict CacheEntry
prune_entries now max_entries entries =
    let left = drop_expired now entries in shrink (size left) max_entries left

-- What a caller finds: a value, a computation of its own, or one to wait for.
pub data Found : Type 0 where
  hit : Value → Found
  owns : Found
  waits_for : String → Found

-- Whether the response, or the stream, goes through the cache.
unfoldable pub is_cached : Settings → (stream : Bool) → Bool
is_cached s stream = s.enabled && (if stream then s.stream_cache else true) && ltb 0 s.ttl_seconds

-- if entry and entry.expires_at > now
unfoldable pub fresh_value : ℕ → Dict CacheEntry → String → Option Value
fresh_value now entries key = elim (get entries key) [
  | none ↦ none
  | some e ↦ if ltb now e.expires_at then some e.value else none
]

-- The call to wait for.
unfoldable pub shared_call : Settings → Cache → String → Option String
shared_call s c key = if s.dedupe_inflight then get c.inflight key else none

-- The first stretch under the lock, of both `get_or_compute_response` and `get_or_compute_stream`;
-- `id` is the identity of the new object.
unfoldable pub lookup : Settings → ℕ → String → Cache → String → Cache × Found
unfolding prune_entries fresh_value shared_call
lookup s now id c key =
    let pruned = record c { entries = prune_entries now (limit s) c.entries } in
    elim (fresh_value now pruned.entries key) [
      | some v ↦ (pruned, hit v)
      | none ↦ elim (shared_call s c key) [
        | some other ↦ (pruned, waits_for other)
        | none ↦ (
          record pruned {
            inflight = if s.dedupe_inflight then put c.inflight key id else c.inflight;
            calls = put c.calls id (record { done = false; value = none; error = none });
          },
          owns,
        )
      ]
    ]

-- The end of a computation: the entry is stored, the entries are pruned, the call is done. The clock
-- is read before the lock is taken and again for the pruning.
unfoldable pub store_value : Settings → ℕ → ℕ → String → Value → Cache → String → Cache
unfolding prune_entries
store_value s now later id value c key = record c {
  entries =
      prune_entries later (limit s)
        (put c.entries key (record { expires_at = now + s.ttl_seconds * 1000000; value = value }));
  inflight = pop c.inflight key;
  calls = put c.calls id (record { done = true; value = some value; error = none });
}

-- The response of `get_or_compute_response`.
unfoldable pub store_response : Settings → ℕ → ℕ → String → Value → Cache → String → Cache
unfolding store_value
store_response s now later id value c key = store_value s now later id (strip_value value) c key

-- The chunks of `get_or_compute_stream`.
unfoldable pub store_stream : Settings → ℕ → ℕ → String → Items → Cache → String → Cache
unfolding store_value
store_stream s now later id chunks c key =
    store_value s now later id (Value.list (strip_items chunks)) c key

-- The `except` of both.
unfoldable pub abort : String → String → Cache → String → Cache
abort id error c key = record c {
  inflight = pop c.inflight key;
  calls = put c.calls id (record { done = true; value = none; error = some error });
}

-- What a caller who waits gets.
pub data Waited : Type 0 where
  waiting : Waited
  raises : String → Waited
  returns : Option Value → Waited

unfoldable pub await_call : Cache → String → Waited
await_call c id = elim (get c.calls id) [
  | none ↦ waiting
  | some call ↦
      if not call.done
      then waiting
      else elim call.error [ some error ↦ raises error | none ↦ returns call.value ]
]
