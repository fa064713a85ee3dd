-- ===== src/Cancellation/Tests.antt =====
-- A run of the cancellation flags, and an instance of their theorem.
use jove_mage.Prelude.{◌≡◌, refl, true, [], ◌∷◌, List, strip}
use jove_mage.Cancellation.{Call, cancels, clears, is_cancelled, last_word}

abbrev calls : List Call
calls = cancels 5 " a" ∷ clears "b" ∷ cancels 6 "b" ∷ clears "a " ∷ []

b_is_cancelled : last_word (is_cancelled [] "b") "b" calls ≡ true
unfolding last_word strip
b_is_cancelled = refl
