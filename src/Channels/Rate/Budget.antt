-- ===== src/Channels/Rate/Budget.antt =====
-- The bucket never gives more than its capacity and what flows in.
use jove_mage.Prelude.{ℕ, ◌+◌, ◌-◌, ◌*◌, ◌≤◌, ◌≡◌, ap, some, List, [], ◌∷◌, arith, if◌then◌else◌}
use jove_mage.Channels.Rate.{Bucket, one_token, try_take}

-- Passes at the given times, by whichever threads: the bucket left, and how many gave a token.
unfoldable pub take_run : Bucket → ℕ → List ℕ → Bucket × ℕ
take_run b rate [] = (b, 0)
take_run b rate (now ∷ times) =
    let r = try_take (some b) rate now in
    let rest = take_run r.0 rate times in (rest.0, if r.1 then rest.1 + 1 else rest.1)

-- The times do not go back, from `start` on, and none is later than `stop`.
abbrev pub Rises : ℕ → ℕ → List ℕ → Type 0
Rises start stop [] = start ≤ stop
Rises start stop (t ∷ ts) = (start ≤ t) × Rises t stop ts

-- A bucket of this rate, not over its capacity.
pub record IsFilled (rate : ℕ) (b : Bucket) : Type 0 where
  pub at_rate : b.rate ≡ rate
  pub within : b.tokens ≤ b.capacity

-- What flows in from `u` to `now`.
pub flow_split : (u now rate : ℕ) → u ≤ now → (now - u) * rate + u * rate ≡ now * rate
flow_split u now rate h =
    let e : (now - u) + u ≡ now = omega arith in omega (arith, ap (λ (t : ℕ). t * rate) e)

-- One pass: the flow since the last one pays for what is given and what is kept.
try_take-flow :
    (b : Bucket) (rate now : ℕ)
    → IsFilled rate b
    → b.updated_at ≤ now
    → let r = try_take (some b) rate now in
      IsFilled rate r.0
      × (r.0.updated_at ≡ now)
      × (r.0.tokens + (if r.1 then one_token else 0) + b.updated_at * rate ≤ b.tokens + now * rate)
unfolding try_take
try_take-flow b rate now f h = (
  record { at_rate = ground arith; within = ground (arith, f.at_rate) },
  ground arith,
  ground (arith, f.at_rate, flow_split b.updated_at now rate h),
)

take_run-flow :
    (b : Bucket) (rate stop : ℕ) (times : List ℕ)
    → IsFilled rate b
    → Rises b.updated_at stop times
    → (take_run b rate times).1 * one_token + b.updated_at * rate ≤ b.tokens + stop * rate
unfolding take_run
take_run-flow b rate stop [] f r = grind (arith, flow_split b.updated_at stop rate r)
take_run-flow b rate stop (now ∷ times) f r =
    let one = try_take-flow b rate now f r.0 in
    ground (
      arith,
      one.2,
      one.1,
      take_run-flow (try_take (some b) rate now).0 rate stop times one.0 (rw one.1 r.1),
    )

Rises-le : (start stop : ℕ) (times : List ℕ) → Rises start stop times → start ≤ stop
Rises-le start stop [] r = r
Rises-le start stop (t ∷ ts) r = omega (arith, r.0, Rises-le t stop ts r.1)

-- Over any span of time, from the bucket's last use to `stop`, the calls of all threads together
-- get at most the bucket's capacity and the rate times the span.
pub grants_within_budget :
    (b : Bucket) (rate stop : ℕ) (times : List ℕ)
    → IsFilled rate b
    → Rises b.updated_at stop times
    → (take_run b rate times).1 * one_token ≤ b.capacity + (stop - b.updated_at) * rate
grants_within_budget b rate stop times f r = omega (
  arith,
  take_run-flow b rate stop times f r,
  flow_split b.updated_at stop rate (Rises-le b.updated_at stop times r),
  f.within,
)
