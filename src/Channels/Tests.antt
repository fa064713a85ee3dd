-- ===== src/Channels/Tests.antt =====
-- Runs of the circuit breaker, the token bucket and the registry, and instances of their theorems.
use jove_mage.Prelude.{
  ◌+◌, ◌-◌, ◌*◌, ◌≤◌, ◌≡◌, ◌≢◌, refl, true, false, some, [], ◌∷◌, arith, strip, lower, has, get,
  if◌then◌else◌, str_eq,
}
use jove_mage.Channels.{normalize_channel}
use jove_mage.Channels.Circuit.{Circuit, circuit_state}
use jove_mage.Channels.Circuit.Isolation.{call_is_local, after, effect, succeeds}
use jove_mage.Channels.Rate.{
  Bucket, one_token, timed_out, waiting, acquire_channel_rate, acquire_loop, try_take, sleep_time,
  rate_channel, Buckets,
}
use jove_mage.Channels.Rate.Budget.{take_run, grants_within_budget}
use jove_mage.Channels.Rate.Waiting.{acquire_ends}
use jove_mage.Channels.Registry.{channel_for_model, registry, Switches}
use jove_mage.Channels.Registry.Routing.{channel_for_model_cases}

abbrev tripped : Circuit
tripped = record { fail_count = 5; open_until = 320; opened_at = 20 }

call_is_local_example :
    circuit_state (after (("firefly", tripped) ∷ []) " Firefly " succeeds) "firefly" ≡ (
      if str_eq (normalize_channel " Firefly ") ""
      then circuit_state (("firefly", tripped) ∷ []) "firefly"
      else if str_eq (normalize_channel " Firefly ") "firefly"
      then effect succeeds (circuit_state (("firefly", tripped) ∷ []) "firefly")
      else circuit_state (("firefly", tripped) ∷ []) "firefly")
call_is_local_example = call_is_local (("firefly", tripped) ∷ []) " Firefly " "firefly" succeeds

abbrev nearly_empty : Bucket
nearly_empty = record { tokens = 10; updated_at = 1000; rate = 5000000; capacity = 5000000000000 }

grants_within_budget_example :
    (take_run nearly_empty 5000000 (300000 ∷ 600000 ∷ [])).1 * one_token
    ≤ 5000000000000 + (700000 - 1000) * 5000000
grants_within_budget_example =
    grants_within_budget nearly_empty 5000000 700000 (300000 ∷ 600000 ∷ [])
      (record { at_rate = refl; within = omega arith }) (omega arith)

abbrev one_bucket : Buckets
one_bucket = ("firefly", nearly_empty) ∷ []

acquire_ends_example :
    (acquire_channel_rate one_bucket "" 5000000 1200 5000 ((1200, 1200) ∷ (51200, 51200) ∷ [])).1
    ≢ waiting
unfolding sleep_time try_take get rate_channel normalize_channel
acquire_ends_example =
    acquire_ends one_bucket "" 5000000 1200 5000 ((1200, 1200) ∷ (51200, 51200) ∷ []) (omega arith)
      (omega arith)

empty_bucket_times_out :
    (acquire_loop (some nearly_empty) 5000000 1500 ((1200, 1200) ∷ [])).1 ≡ timed_out
unfolding acquire_loop try_take
empty_bucket_times_out = refl

channel_for_model_cases_example : has registry (channel_for_model "Firefly-Image-4") ≡ true
channel_for_model_cases_example = (channel_for_model_cases "Firefly-Image-4").0

model_of_firefly : channel_for_model "Firefly-Image-4" ≡ "firefly"
unfolding channel_for_model lower strip
model_of_firefly = refl

abbrev no_video : Switches
no_video = record { firefly_enabled = some true; firefly_video_enabled = some false }
