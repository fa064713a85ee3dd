-- ===== src/Cancellation.antt =====
-- services/request_cancel_service.py: the flags by which requests in flight are cancelled.
mod Tests
use jove_mage.Prelude.{
  ℕ, String, ◌≡◌, refl, inl, inr, Bool, true, false, List, [], ◌∷◌, arith, eq_iff, eq_refl, str_eq,
  if◌then◌else◌, strip, strip-strip, strip-empty, Dict, get, put, pop, has, get-put, get-pop,
  Bool-cases,
}

-- `_cancelled`: the time of the cancellation, by the identity of the call.
abbrev pub Flags : Type 0
Flags = Dict ℕ

-- `cancel`; the answer is whether there was an identity.
unfoldable pub cancel : ℕ → Flags → String → Flags × Bool
cancel now flags call_id =
    if str_eq (strip call_id) "" then (flags, false) else (put flags (strip call_id) now, true)

-- `is_cancelled`, and whether `raise_if_cancelled` raises.
unfoldable pub is_cancelled : Flags → String → Bool
unfolding has
is_cancelled flags call_id = if str_eq (strip call_id) "" then false else has flags (strip call_id)

-- `clear`
unfoldable pub clear : Flags → String → Flags
clear flags call_id = if str_eq (strip call_id) "" then flags else pop flags (strip call_id)

-- The calls that change flags.
pub data Call : Type 0 where
  cancels : ℕ → String → Call
  clears : String → Call

unfoldable pub call_all : Flags → List Call → Flags
unfolding cancel clear
call_all flags [] = flags
call_all flags (cancels now call_id ∷ calls) = call_all (cancel now flags call_id).0 calls
call_all flags (clears call_id ∷ calls) = call_all (clear flags call_id) calls

-- Whether the last call that names the identity, if any does, cancels it.
unfoldable pub last_word : Bool → String → List Call → Bool
last_word flag call_id [] = flag
last_word flag call_id (cancels now other ∷ calls) =
    last_word (if str_eq (strip other) (strip call_id) then true else flag) call_id calls
last_word flag call_id (clears other ∷ calls) =
    last_word (if str_eq (strip other) (strip call_id) then false else flag) call_id calls

-- After any calls, a request with a non-blank identity is cancelled exactly if the last call that
-- names it, up to the white space around it, cancels it, or if none names it and it was before.
pub is_cancelled-call_all :
    (flags : Flags) (calls : List Call) (call_id : String)
    → str_eq (strip call_id) "" ≡ false
    → is_cancelled (call_all flags calls) call_id
      ≡ last_word (is_cancelled flags call_id) call_id calls
unfolding call_all last_word
is_cancelled-call_all flags [] call_id named = refl
is_cancelled-call_all flags (cancels now other ∷ calls) call_id named =
    rw (is_cancelled-call_all (cancel now flags other).0 calls call_id named, step) refl
  where
    step :
        is_cancelled (cancel now flags other).0 call_id
        ≡ (if str_eq (strip other) (strip call_id) then true else is_cancelled flags call_id)
    step =
        unfold cancel in
        unfold is_cancelled in
        ground (
          arith,
          named,
          get-put flags (strip other) (strip call_id) now,
          eq_iff (strip other) (strip call_id),
          eq_iff (strip other) "",
          eq_iff (strip call_id) "",
        )
is_cancelled-call_all flags (clears other ∷ calls) call_id named =
    rw (is_cancelled-call_all (clear flags other) calls call_id named, step) refl
  where
    step :
        is_cancelled (clear flags other) call_id
        ≡ (if str_eq (strip other) (strip call_id) then false else is_cancelled flags call_id)
    step =
        unfold clear in
        unfold is_cancelled in
        ground (
          arith,
          named,
          get-pop flags (strip other) (strip call_id),
          eq_iff (strip other) (strip call_id),
          eq_iff (strip other) "",
          eq_iff (strip call_id) "",
        )
