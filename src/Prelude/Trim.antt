-- ===== src/Prelude/Trim.antt =====
-- `strip` and `lower` twice are once, and they commute.
use Prim.Native.Nat.{ℕ, zero, suc, ◌-◌, ◌<◌}
use Prim.Native.Char.{Char, code}
use Prim.Native.String.{String, char_at}
use mathlib.Core.Path.{◌≡◌, refl, ap₂, ◌∙◌, sym}
use mathlib.Core.Logic.{inl, inr}
use mathlib.Core.Bool.{Bool, true, false, not, ◌&&◌}
use native.Mathlib.Omega.{arith}
use jove_mage.Prelude.Tests.{leb, if◌then◌else◌, Bool-cases}
use jove_mage.Prelude.Text.{is_space, lstrip, rstrip, strip, lower_char, lower}

all_below : ℕ → (ℕ → Bool) → Bool
all_below zero p = true
all_below (suc n) p = p n && all_below n p

all_below-holds : (n : ℕ) (p : ℕ → Bool) (x : ℕ) → all_below n p ≡ true → x < n → p x ≡ true
unfolding all_below
all_below-holds zero p x h lt = absurd (omega arith)
all_below-holds (suc n) p x h lt = ground (arith, all_below-holds n p x)

abbrev is_upper : Char → Bool
is_upper c = leb b'A' (code c) && leb (code c) b'Z'

abbrev small : ℕ → Char
small k = char_at "abcdefghijklmnopqrstuvwxyz" k

small_table : all_below 26 (λ k. not (is_space (small k)) && not (is_upper (small k))) ≡ true
unfolding all_below is_space
small_table = refl

small_plain : (k : ℕ) → k < 26 → (is_space (small k) ≡ false) × (is_upper (small k) ≡ false)
small_plain k h =
    parts (is_space (small k)) (is_upper (small k)) (
      all_below-holds 26 (λ k. not (is_space (small k)) && not (is_upper (small k))) k small_table
        h)
  where
    parts : (a b : Bool) → (not a && not b) ≡ true → (a ≡ false) × (b ≡ false)
    parts a b h = ground arith

upper-not-space : (c : Char) → is_upper c ≡ true → is_space c ≡ false
unfolding is_space
upper-not-space c h = ground arith

upper-index : (c : Char) → is_upper c ≡ true → code c - b'A' < 26
upper-index c h = ground arith

is_space-lower_char : (c : Char) → is_space (lower_char c) ≡ is_space c
unfolding lower_char
is_space-lower_char c = elim (Bool-cases (is_upper c)) [
  | inl e ↦ rw e ((small_plain (code c - b'A') (upper-index c e)).0 ∙ sym (upper-not-space c e))
  | inr e ↦ rw e
]

lower_char-lower_char : (c : Char) → lower_char (lower_char c) ≡ lower_char c
unfolding lower_char
lower_char-lower_char c = elim (Bool-cases (is_upper c)) [
  | inl e ↦ rw e (rw ((small_plain (code c - b'A') (upper-index c e)).1))
  | inr e ↦ rw e (rw e)
]

pub lower-lower : (s : String) → lower (lower s) ≡ lower s
unfolding lower
lower-lower String.[] = refl
lower-lower (String.◌∷◌ c s) = ap₂ String.◌∷◌ (lower_char-lower_char c) (lower-lower s)

lstrip-lower : (s : String) → lstrip (lower s) ≡ lower (lstrip s)
unfolding lstrip lower
lstrip-lower String.[] = refl
lstrip-lower (String.◌∷◌ c s) = elim (Bool-cases (is_space c)) [
  | inl e ↦ rw (is_space-lower_char c, e, lstrip) (lstrip-lower s)
  | inr e ↦ rw (is_space-lower_char c, e, lstrip) refl
]

-- What a character does to the trimmed rest.
abbrev onto : Char → String → String
onto c String.[] = if is_space c then "" else String.◌∷◌ c ""
onto c (String.◌∷◌ d t) = String.◌∷◌ c (String.◌∷◌ d t)

rstrip-cons : (c : Char) (s : String) → rstrip (String.◌∷◌ c s) ≡ onto c (rstrip s)
unfolding rstrip
rstrip-cons c s = go (rstrip s)
  where
    go :
        (t : String)
        → elim t [
          | String.[] ↦ if is_space c then "" else String.◌∷◌ c ""
          | String.◌∷◌ d u ↦ String.◌∷◌ c (String.◌∷◌ d u)
        ]
          ≡ onto c t
    go String.[] = refl
    go (String.◌∷◌ d u) = refl

onto-lower : (c : Char) (t : String) → onto (lower_char c) (lower t) ≡ lower (onto c t)
unfolding lower
onto-lower c String.[] = elim (Bool-cases (is_space c)) [
  | inl e ↦ rw (is_space-lower_char c, e) refl
  | inr e ↦ rw (is_space-lower_char c, e) refl
]
onto-lower c (String.◌∷◌ d t) = refl

rstrip-lower : (s : String) → rstrip (lower s) ≡ lower (rstrip s)
unfolding lower
rstrip-lower String.[] = unfold rstrip in refl
rstrip-lower (String.◌∷◌ c s) =
    rw (rstrip-cons (lower_char c) (lower s), rstrip-cons c s, rstrip-lower s)
      (onto-lower c (rstrip s))

pub strip-lower : (s : String) → strip (lower s) ≡ lower (strip s)
unfolding strip
strip-lower s = rw (lstrip-lower s, rstrip-lower (lstrip s))

rstrip-onto : (c : Char) (t : String) → rstrip t ≡ t → rstrip (onto c t) ≡ onto c t
rstrip-onto c String.[] h = elim (Bool-cases (is_space c)) [
  | inl e ↦ rw e (unfold rstrip in refl)
  | inr e ↦ rw e (rw (rstrip-cons c "") (unfold rstrip in rw e refl))
]
rstrip-onto c (String.◌∷◌ d t) h = rw (rstrip-cons c (String.◌∷◌ d t), h) refl

rstrip-rstrip : (s : String) → rstrip (rstrip s) ≡ rstrip s
rstrip-rstrip String.[] = unfold rstrip in refl
rstrip-rstrip (String.◌∷◌ c s) = rw (rstrip-cons c s) (rstrip-onto c (rstrip s) (rstrip-rstrip s))

-- A text that does not begin with white space, or is empty.
abbrev starts_plain : String → Bool
starts_plain String.[] = true
starts_plain (String.◌∷◌ c s) = not (is_space c)

lstrip-plain : (s : String) → starts_plain s ≡ true → lstrip s ≡ s
unfolding lstrip
lstrip-plain String.[] h = refl
lstrip-plain (String.◌∷◌ c s) h = elim (Bool-cases (is_space c)) [
  | inl e ↦ absurd (ground (arith, e))
  | inr e ↦ rw (e, lstrip) refl
]

plain-lstrip : (s : String) → starts_plain (lstrip s) ≡ true
unfolding lstrip
plain-lstrip String.[] = refl
plain-lstrip (String.◌∷◌ c s) = elim (Bool-cases (is_space c)) [
  | inl e ↦ rw (e, lstrip) (plain-lstrip s)
  | inr e ↦ rw (e, lstrip) (rw e refl)
]

plain-onto : (c : Char) (t : String) → is_space c ≡ false → starts_plain (onto c t) ≡ true
plain-onto c String.[] h = rw h (rw h refl)
plain-onto c (String.◌∷◌ d t) h = rw h refl

plain-rstrip : (s : String) → starts_plain s ≡ true → starts_plain (rstrip s) ≡ true
plain-rstrip String.[] h = unfold rstrip in refl
plain-rstrip (String.◌∷◌ c s) h = rw (rstrip-cons c s) (plain-onto c (rstrip s) (ground arith))

pub strip-strip : (s : String) → strip (strip s) ≡ strip s
unfolding strip
strip-strip s =
    rw (lstrip-plain (rstrip (lstrip s)) (plain-rstrip (lstrip s) (plain-lstrip s)))
      (rstrip-rstrip (lstrip s))
