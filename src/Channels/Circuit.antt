-- ===== src/Channels/Circuit.antt =====
-- services/channels/runtime.py: the circuit breaker. The threshold and the cooldown are arguments,
-- as the configuration gives them; both are at least 1 there.
pub mod Trips
pub mod Isolation
use jove_mage.Prelude.{
  ℕ, ◌+◌, ◌*◌, String, Bool, true, false, Option, none, some, List, [], ◌∷◌, ltb, leb, ◌==◌, str_eq,
  if◌then◌else◌, strip, lower, Dict, get, put, map_values, size,
}
use jove_mage.Channels.{normalize_channel}

-- `open_until` is 0 while the circuit is closed.
pub record Circuit : Type 0 where
  pub fail_count : ℕ
  pub open_until : ℕ
  pub opened_at : ℕ

abbrev pub fresh : Circuit
fresh = record { fail_count = 0; open_until = 0; opened_at = 0 }

-- `_circuit_states`
abbrev pub Circuits : Type 0
Circuits = Dict Circuit

-- The state that `_circuit_state` returns, and the table that it leaves.
unfoldable pub circuit_state : Circuits → String → Circuit
circuit_state cs cid = elim (get cs cid) [ none ↦ fresh | some c ↦ c ]

-- One look at a circuit: the state left behind, and whether it is open.
unfoldable pub look : Circuit → ℕ → Circuit × Bool
look c now =
    if c.open_until == 0
    then (c, false)
    else if ltb now c.open_until
    then (c, true)
    else (record c { open_until = 0 }, false)

unfoldable pub is_channel_open : Circuits → String → ℕ → Circuits × Bool
unfolding circuit_state
is_channel_open cs channel now =
    let cid = normalize_channel channel in
    if str_eq cid ""
    then (cs, false)
    else (let r = look (circuit_state cs cid) now in (put cs cid r.0, r.1))

unfoldable pub record_channel_success : Circuits → String → Circuits
record_channel_success cs channel =
    let cid = normalize_channel channel in if str_eq cid "" then cs else put cs cid fresh

-- One failure: the state left behind, and whether this failure opened the circuit.
unfoldable pub fail_once : Circuit → ℕ → ℕ → ℕ → Circuit × Bool
fail_once c threshold cooldown now =
    if ltb now c.open_until
    then (record c { fail_count = c.fail_count + 1 }, false)
    else if leb threshold (c.fail_count + 1)
    then (
      record { fail_count = c.fail_count + 1; open_until = now + cooldown; opened_at = now },
      true,
    )
    else (record c { fail_count = c.fail_count + 1 }, false)

-- The row that `_append_circuit_open_ledger` writes; its note shows the two numbers.
pub record LedgerRow : Type 0 where
  pub trace_id : String
  pub channel : String
  pub account_id : String
  pub action : String
  pub model : String
  pub result : String
  pub note_fail_count : ℕ
  pub note_cooldown_sec : ℕ

-- str(x or default).strip() or default
unfoldable pub text_or : String → String → String
text_or text default = let t = strip text in if str_eq t "" then default else t

unfoldable pub circuit_open_row : String → ℕ → String → String → String → ℕ → LedgerRow
unfolding text_or
circuit_open_row channel fail_count trace_id model account_id cooldown_sec = record {
  trace_id = text_or trace_id "circuit";
  channel = channel;
  account_id = text_or account_id "system";
  action = "circuit";
  model = strip model;
  result = "open";
  note_fail_count = fail_count;
  note_cooldown_sec = cooldown_sec;
}

-- The table, whether the circuit has just opened, and the rows written to the ledger. The cooldown
-- is in microseconds here, and in seconds in the row.
unfoldable pub record_channel_failure :
    Circuits → String → String → String → String → ℕ → ℕ → ℕ → Circuits × Bool × List LedgerRow
unfolding circuit_state circuit_open_row
record_channel_failure cs channel trace_id model account_id threshold cooldown_sec now =
    let cid = normalize_channel channel in
    if str_eq cid ""
    then (cs, false, [])
    else (let r = fail_once (circuit_state cs cid) threshold (cooldown_sec * 1000000) now in
        (
          put cs cid r.0,
          r.1,
          (if r.1
              then circuit_open_row cid r.0.fail_count trace_id model account_id cooldown_sec ∷ []
              else []),
        ))

pub record CircuitStatus : Type 0 where
  pub is_open : Bool
  pub until : ℕ
  pub fail_count : ℕ

-- The entry of one channel in `channel_circuit_status`.
unfoldable pub circuit_status : Circuit → ℕ → CircuitStatus
circuit_status c now = record {
  is_open = ltb now c.open_until;
  until = if ltb now c.open_until then c.open_until else 0;
  fail_count = c.fail_count;
}

-- `channel_circuit_status` of a named channel: it makes the channel's state if there is none.
unfoldable pub channel_circuit_status : Circuits → String → ℕ → Circuits × CircuitStatus
unfolding circuit_state circuit_status
channel_circuit_status cs channel now =
    let cid = normalize_channel channel in
    if str_eq cid ""
    then (cs, record { is_open = false; until = 0; fail_count = 0 })
    else (let c = circuit_state cs cid in (put cs cid c, circuit_status c now))
