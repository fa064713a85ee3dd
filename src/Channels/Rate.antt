-- ===== src/Channels/Rate.antt =====
-- services/channels/runtime.py: the token bucket of a channel. A rate is in millionths of a token
-- per second and the bucket in units of 10^-12 token, so that a microsecond at rate r fills in
-- exactly r units.
pub mod Budget
pub mod Waiting
use jove_mage.Prelude.{
  ℕ, ◌+◌, ◌-◌, ◌*◌, ◌/◌, String, Bool, true, false, Option, none, some, List, [], ◌∷◌, ltb, leb,
  ◌==◌, str_eq, if◌then◌else◌, min, max, Dict, get, put, pop,
}
use jove_mage.Channels.{normalize_channel}
use jove_mage.Channels.Circuit.{Circuits}

abbrev pub one_token : ℕ
one_token = 1000000000000

pub record Bucket : Type 0 where
  pub tokens : ℕ
  pub updated_at : ℕ
  pub rate : ℕ
  pub capacity : ℕ

-- max(1.0, rate) tokens.
unfoldable pub capacity_of : ℕ → ℕ
capacity_of rate = max one_token (rate * 1000000)

-- The bucket as one pass of the loop finds it: made full, or brought up to the configured rate and
-- filled for the time since it was last touched.
unfoldable pub refill : Option Bucket → ℕ → ℕ → Bucket
unfolding capacity_of
refill none rate now = record {
  tokens = capacity_of rate;
  updated_at = now;
  rate = rate;
  capacity = capacity_of rate;
}
refill (some b) rate now =
    let capacity = if b.rate == rate then b.capacity else capacity_of rate in
    let elapsed = if b.updated_at == 0 then 0 else now - b.updated_at in
    record {
      tokens = min capacity (b.tokens + elapsed * rate);
      updated_at = now;
      rate = rate;
      capacity = capacity;
    }

-- One pass under the lock: the bucket left behind, and whether it gave a token.
unfoldable pub try_take : Option Bucket → ℕ → ℕ → Bucket × Bool
unfolding refill
try_take b rate now =
    let f = refill b rate now in
    if leb one_token f.tokens
    then (record f { tokens = f.tokens - one_token }, true)
    else (f, false)

-- wait_sec = max(0.01, need / rate), rounded up to microseconds
unfoldable pub wait_time : ℕ → ℕ → ℕ
wait_time need rate = max 10000 ((need + (rate - 1)) / rate)

-- min(wait_sec, 0.05), the sleep of a round
unfoldable pub sleep_time : ℕ → ℕ → ℕ
unfolding wait_time
sleep_time need rate = min (wait_time need rate) 50000

-- time.time() + wait_sec > deadline
unfoldable pub would_miss : ℕ → ℕ → ℕ → ℕ → Bool
unfolding wait_time
would_miss need rate now deadline = ltb deadline (now + wait_time need rate)

pub data Outcome : Type 0 where
  granted timed_out waiting : Outcome

-- The loop of `acquire_channel_rate` over the clock's readings, two for each round: under the lock,
-- and at the test of the deadline. It is still `waiting` where the readings end.
unfoldable pub acquire_loop : Option Bucket → ℕ → ℕ → List (ℕ × ℕ) → Option Bucket × Outcome
unfolding would_miss
acquire_loop b rate deadline [] = (b, waiting)
acquire_loop b rate deadline ((now, later) ∷ readings) =
    let r = try_take b rate now in
    let rest = acquire_loop (some r.0) rate deadline readings in
    if r.1
    then (some r.0, granted)
    else if would_miss (one_token - r.0.tokens) rate later deadline
    then (some r.0, timed_out)
    else rest

-- `_rate_states`
abbrev pub Buckets : Type 0
Buckets = Dict Bucket

-- An empty name stands for the Firefly channel.
unfoldable pub rate_channel : String → String
rate_channel channel =
    let cid = normalize_channel channel in if str_eq cid "" then "firefly" else cid

unfoldable pub store_bucket : Buckets → String → Option Bucket → Buckets
store_bucket bs cid none = bs
store_bucket bs cid (some b) = put bs cid b

unfoldable pub acquire_channel_rate :
    Buckets → String → ℕ → ℕ → ℕ → List (ℕ × ℕ) → Buckets × Outcome
unfolding rate_channel store_bucket
acquire_channel_rate bs channel rate started timeout readings =
    let cid = rate_channel channel in
    let r = acquire_loop (get bs cid) rate (started + timeout) readings in
    (store_bucket bs cid r.0, r.1)

-- `reset_channel_runtime_state`: everything, or one channel's circuit and bucket.
unfoldable pub reset_channel_runtime_state : Circuits × Buckets → Option String → Circuits × Buckets
reset_channel_runtime_state s none = ([], [])
reset_channel_runtime_state s (some channel) =
    (pop s.0 (normalize_channel channel), pop s.1 (normalize_channel channel))
