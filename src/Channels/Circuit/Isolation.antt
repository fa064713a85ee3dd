-- ===== src/Channels/Circuit/Isolation.antt =====
-- The table of circuits: a call for one channel leaves the others as they were.
use jove_mage.Prelude.{ℕ, String, ◌≡◌, arith, eq_iff, str_eq, if◌then◌else◌, get-put, ◌*◌}
use jove_mage.Channels.{normalize_channel}
use jove_mage.Channels.Circuit.{
  Circuits, Circuit, fresh, look, fail_once, circuit_state, is_channel_open, record_channel_success,
  record_channel_failure, channel_circuit_status,
}

-- The calls on a channel.
pub data Call : Type 0 where
  looks : ℕ → Call
  succeeds : Call
  fails : String → String → String → ℕ → ℕ → ℕ → Call
  shows : ℕ → Call

unfoldable pub after : Circuits → String → Call → Circuits
after cs channel (looks now) = (is_channel_open cs channel now).0
after cs channel succeeds = record_channel_success cs channel
after cs channel (fails trace_id model account_id threshold cooldown_sec now) =
    (record_channel_failure cs channel trace_id model account_id threshold cooldown_sec now).0
after cs channel (shows now) = (channel_circuit_status cs channel now).0

-- What the call does to the circuit of its own channel.
unfoldable pub effect : Call → Circuit → Circuit
effect (looks now) c = (look c now).0
effect succeeds c = fresh
effect (fails trace_id model account_id threshold cooldown_sec now) c =
    (fail_once c threshold (cooldown_sec * 1000000) now).0
effect (shows now) c = c

-- Every call changes the circuit of the channel that it names, after trimming and lowering the
-- name, by the rule for one circuit, and no other channel's; on a blank name it changes nothing.
pub call_is_local :
    (cs : Circuits) (channel other : String) (call : Call)
    → circuit_state (after cs channel call) other ≡ (
        if str_eq (normalize_channel channel) ""
        then circuit_state cs other
        else if str_eq (normalize_channel channel) other
        then effect call (circuit_state cs other)
        else circuit_state cs other)
unfolding after effect is_channel_open record_channel_success record_channel_failure
    channel_circuit_status
call_is_local cs channel other (looks now) =
    ground (arith, get-put cs cid other (look (circuit_state cs cid) now).0, eq_iff cid other)
  where
    cid : String
    cid = normalize_channel channel
call_is_local cs channel other succeeds = ground (
  arith,
  get-put cs (normalize_channel channel) other fresh,
  eq_iff (normalize_channel channel) other,
)
call_is_local cs channel other (fails trace_id model account_id threshold cooldown_sec now) =
    ground (
      arith,
      get-put cs cid other
          (fail_once (circuit_state cs cid) threshold (cooldown_sec * 1000000) now).0,
      eq_iff cid other,
    )
  where
    cid : String
    cid = normalize_channel channel
call_is_local cs channel other (shows now) =
    ground (arith, get-put cs cid other (circuit_state cs cid), eq_iff cid other)
  where
    cid : String
    cid = normalize_channel channel
