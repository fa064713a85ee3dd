-- ===== src/Channels/Rate/Waiting.antt =====
-- A call for a token ends: with a token, or with the timeout.
use jove_mage.Prelude.{
  ℕ, ◌+◌, ◌-◌, ◌*◌, ◌≤◌, ◌<◌, ◌≡◌, ◌≢◌, refl, inl, inr, String, true, false, Option, none, some,
  List, [], ◌∷◌, length, arith, Bool-cases, get, eq_iff, put, get-put, eq_refl, leb,
}
use jove_mage.Channels.Rate.{
  Bucket, Buckets, granted, waiting, one_token, try_take, sleep_time, wait_time, would_miss,
  acquire_loop, acquire_channel_rate, rate_channel, capacity_of,
}

-- The clock's readings of a call that starts at `start`: time does not go back, and a round that
-- goes on sleeps for the time that it has worked out.
abbrev pub Paced : Option Bucket → ℕ → ℕ → List (ℕ × ℕ) → Type 0
Paced b rate start [] = Unit
Paced b rate start ((now, later) ∷ rest) =
    (start ≤ now)
    × (now ≤ later)
    × Paced (some (try_take b rate now).0) rate
        (later + sleep_time (one_token - (try_take b rate now).0.tokens) rate) rest

sleep_time-least : (need rate : ℕ) → 10000 ≤ sleep_time need rate
unfolding sleep_time wait_time
sleep_time-least need rate = omega arith

slept :
    (need rate later deadline : ℕ)
    → would_miss need rate later deadline ≡ false
    → later + sleep_time need rate ≤ deadline
unfolding would_miss sleep_time
slept need rate later deadline h = ground (arith, h)

acquire_loop-ends :
    (b : Option Bucket) (rate start deadline : ℕ) (readings : List (ℕ × ℕ))
    → start ≤ deadline
    → Paced b rate start readings
    → deadline + 10000 < start + length readings * 10000
    → (acquire_loop b rate deadline readings).1 ≢ waiting
unfolding acquire_loop
acquire_loop-ends b rate start deadline [] s p enough = absurd (omega arith)
acquire_loop-ends b rate start deadline ((now, later) ∷ rest) s p enough =
    elim (Bool-cases (try_take b rate now).1) [
      | inl e ↦ rw e (λ q. cc)
      | inr e ↦
          let need = one_token - (try_take b rate now).0.tokens in
          elim (Bool-cases (would_miss need rate later deadline)) [
            | inl f ↦ rw (e, f) (λ q. cc)
            | inr f ↦
                rw (e, f)
                  (acquire_loop-ends (some (try_take b rate now).0) rate
                    (later + sleep_time need rate) deadline rest
                    (slept (one_token - (try_take b rate now).0.tokens) rate later deadline f) p.2
                    (omega (arith, p.0, p.1, sleep_time-least need rate)))
          ]
    ]

-- A call whose clock does not go back, and whose rounds sleep for as long as the code asks for, gets
-- a token or times out within a number of rounds that its timeout bounds: a hundred in a second, and
-- two more.
pub acquire_ends :
    (bs : Buckets) (channel : String) (rate started timeout : ℕ) (readings : List (ℕ × ℕ))
    → Paced (get bs (rate_channel channel)) rate started readings
    → timeout + 10000 < length readings * 10000
    → (acquire_channel_rate bs channel rate started timeout readings).1 ≢ waiting
unfolding acquire_channel_rate
acquire_ends bs channel rate started timeout readings p enough =
    acquire_loop-ends (get bs (rate_channel channel)) rate started (started + timeout) readings
      (omega arith) p (omega arith)

-- The first call on a channel is granted at once, at whatever rate, and leaves the bucket one token
-- short of its capacity. The buckets of the other channels stay as they are.
pub first_call_granted :
    (bs : Buckets) (channel other : String) (rate started timeout now later : ℕ)
    (rest : List (ℕ × ℕ))
    → get bs (rate_channel channel) ≡ none
    → let r = acquire_channel_rate bs channel rate started timeout ((now, later) ∷ rest) in
      (r.1 ≡ granted)
      × (get r.0 (rate_channel channel)
          ≡ some (record {
            tokens = capacity_of rate - one_token;
            updated_at = now;
            rate = rate;
            capacity = capacity_of rate;
          }))
      × (rate_channel channel ≢ other → get r.0 other ≡ get bs other)
unfolding acquire_channel_rate acquire_loop try_take
first_call_granted bs channel other rate started timeout now later rest absent =
    rw (absent, full)
      (refl, get-put_self, λ apart. ground (arith, get-put bs cid other b, eq_iff cid other, apart))
  where
    cid : String
    cid = rate_channel channel

    b : Bucket
    b = record {
      tokens = capacity_of rate - one_token;
      updated_at = now;
      rate = rate;
      capacity = capacity_of rate;
    }

    full : leb one_token (capacity_of rate) ≡ true
    full = unfold capacity_of in ground arith

    get-put_self : get (put bs cid b) cid ≡ some b
    get-put_self = ground (arith, get-put bs cid cid b, eq_refl cid)
