-- ===== src/Channels/Circuit/Trips.antt =====
-- When one circuit opens, how long it stays open, and what closes it.
use jove_mage.Prelude.{
  ℕ, ◌+◌, ◌≤◌, ◌<◌, ◌≡◌, refl, Bool, true, false, List, [], ◌∷◌, length, arith, ltb,
}
use jove_mage.Channels.Circuit.{Circuit, fresh, look, fail_once}

-- Failures at the given times, one after the other, and whether each opened the circuit.
unfoldable pub fail_run : Circuit → ℕ → ℕ → List ℕ → Circuit × List Bool
fail_run c threshold cooldown [] = (c, [])
fail_run c threshold cooldown (now ∷ times) =
    let r = fail_once c threshold cooldown now in
    let rest = fail_run r.0 threshold cooldown times in (rest.0, r.1 ∷ rest.1)

abbrev NoneOf : List Bool → Type 0
NoneOf [] = Unit
NoneOf (b ∷ bs) = (b ≡ false) × NoneOf bs

-- A closed circuit counts the failures below the threshold and stays closed.
fail_run-below :
    (c : Circuit) (threshold cooldown : ℕ) (times : List ℕ)
    → c.open_until ≡ 0
    → c.fail_count + length times < threshold
    → ((fail_run c threshold cooldown times).0.fail_count ≡ c.fail_count + length times)
      × ((fail_run c threshold cooldown times).0.open_until ≡ 0)
      × NoneOf (fail_run c threshold cooldown times).1
unfolding fail_run fail_once
fail_run-below c threshold cooldown [] h lt = (omega arith, h, tt)
fail_run-below c threshold cooldown (now ∷ times) h lt =
    ground
      (arith, fail_run-below (record c { fail_count = c.fail_count + 1 }) threshold cooldown times)

-- From a closed circuit with no failures, fewer failures than the threshold leave it closed and
-- report no opening; the failure that reaches the threshold, at the time `now`, opens it for the
-- cooldown and reports the opening.
pub opens_at_threshold :
    (threshold cooldown now : ℕ) (times : List ℕ)
    → length times + 1 ≡ threshold
    → 0 < now
    → let before = fail_run fresh threshold cooldown times in
      let after = fail_once before.0 threshold cooldown now in
      NoneOf before.1
      × ((look before.0 now).1 ≡ false)
      × (after.1 ≡ true)
      × (after.0.fail_count ≡ threshold)
      × ((t : ℕ) → (look after.0 t).1 ≡ ltb t (now + cooldown))
unfolding fail_once look
opens_at_threshold threshold cooldown now times h pos = (
  below.2,
  ground (arith, below.1),
  ground (arith, below.0, below.1),
  ground (arith, below.0, below.1),
  λ t. ground (arith, below.0, below.1),
)
  where
    below :
        ((fail_run fresh threshold cooldown times).0.fail_count ≡ 0 + length times)
        × ((fail_run fresh threshold cooldown times).0.open_until ≡ 0)
        × NoneOf (fail_run fresh threshold cooldown times).1
    below = fail_run-below fresh threshold cooldown times refl (omega arith)

-- All the times lie before the bound.
abbrev pub Before : ℕ → List ℕ → Type 0
Before bound [] = Unit
Before bound (t ∷ ts) = (t < bound) × Before bound ts

-- While a circuit is open, failures are counted, report no opening, and do not prolong it.
pub failures_while_open :
    (c : Circuit) (threshold cooldown : ℕ) (times : List ℕ)
    → Before c.open_until times
    → let r = fail_run c threshold cooldown times in
      NoneOf r.1 × (r.0.open_until ≡ c.open_until) × (r.0.fail_count ≡ c.fail_count + length times)
unfolding fail_run fail_once
failures_while_open c threshold cooldown [] b = (tt, refl, omega arith)
failures_while_open c threshold cooldown (now ∷ times) b = ground (
  arith,
  failures_while_open (record c { fail_count = c.fail_count + 1 }) threshold cooldown times b.1,
)

-- After the cooldown of a circuit that had reached its threshold, one look lets a call through and
-- keeps the count, so that a single failure opens the circuit for a whole cooldown again.
pub half_open :
    (c : Circuit) (threshold cooldown t now : ℕ)
    → threshold ≤ c.fail_count
    → c.open_until ≤ t
    → t ≤ now
    → let probe = look c t in
      (probe.1 ≡ false)
      × (probe.0.fail_count ≡ c.fail_count)
      × ((fail_once probe.0 threshold cooldown now).1 ≡ true)
      × ((fail_once probe.0 threshold cooldown now).0.open_until ≡ now + cooldown)
unfolding look fail_once
half_open c threshold cooldown t now reached over later = ground arith
