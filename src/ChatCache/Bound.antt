-- ===== src/ChatCache/Bound.antt =====
-- `_prune_locked`: how much the cache holds, and which entries it drops.
use jove_mage.Prelude.{
  size-pop_present, ℕ, zero, suc, ◌+◌, ◌≤◌, ◌<◌, String, ◌≡◌, refl, ◌⊎◌, inl, inr, true, false, [],
  ◌∷◌, arith, eq_iff, ltb, str_eq, if◌then◌else◌, Dict, get, pop, has, size, Bool-cases,
}
use jove_mage.ChatCache.{CacheEntry, drop_expired, oldest, drop_oldest, shrink, prune_entries}

-- Every entry satisfies the predicate.
abbrev pub All : (String → CacheEntry → Type 0) → Dict CacheEntry → Type 0
All P [] = Unit
All P ((key, e) ∷ entries) = P key e × All P entries

has-cons :
    (d : Dict CacheEntry) (j k : String) (e : CacheEntry)
    → has ((j, e) ∷ d) k ≡ (if str_eq j k then true else has d k)
unfolding has get
has-cons d j k e = ground arith

-- The oldest key is the one at hand or one of the entries.
oldest_is_there :
    (best : String) (at : ℕ) (entries : Dict CacheEntry)
    → (oldest best at entries ≡ best) ⊎ (has entries (oldest best at entries) ≡ true)
unfolding oldest
oldest_is_there best at [] = inl refl
oldest_is_there best at ((key, e) ∷ entries) = ground (
  arith,
  oldest_is_there key e.expires_at entries,
  oldest_is_there best at entries,
  has-cons entries key (oldest key e.expires_at entries) e,
  has-cons entries key (oldest best at entries) e,
  eq_iff key (oldest key e.expires_at entries),
)

size-drop_oldest :
    (entries : Dict CacheEntry) → 0 < size entries → suc (size (drop_oldest entries)) ≤ size entries
unfolding drop_oldest
size-drop_oldest [] h = absurd (omega (arith, h))
size-drop_oldest ((key, e) ∷ entries) h =
    size-pop_present ((key, e) ∷ entries) (oldest key e.expires_at entries) (
      ground (
        arith,
        oldest_is_there key e.expires_at entries,
        has-cons entries key (oldest key e.expires_at entries) e,
        eq_iff key (oldest key e.expires_at entries),
      ))

size-shrink :
    (fuel max_entries : ℕ) (entries : Dict CacheEntry)
    → size entries ≤ fuel + max_entries
    → size (shrink fuel max_entries entries) ≤ max_entries
unfolding shrink
size-shrink zero max_entries entries h = omega (arith, h)
size-shrink (suc fuel) max_entries entries h = elim (Bool-cases (ltb max_entries (size entries))) [
  | inl e ↦
      rw (e, shrink)
        (size-shrink fuel max_entries (drop_oldest entries)
          (ground (arith, h, e, size-drop_oldest entries)))
  | inr e ↦ rw (e, shrink) (ground (arith, e))
]

All-pop :
    (P : String → CacheEntry → Type 0) (d : Dict CacheEntry) (k : String)
    → All P d
    → All P (pop d k)
unfolding pop
All-pop P [] k a = tt
All-pop P ((j, v) ∷ d) k a = elim (Bool-cases (str_eq j k)) [
  | inl e ↦ rw e (All-pop P d k a.1)
  | inr e ↦ rw e (a.0, All-pop P d k a.1)
]

All-drop_oldest :
    (P : String → CacheEntry → Type 0) (d : Dict CacheEntry) → All P d → All P (drop_oldest d)
unfolding drop_oldest
All-drop_oldest P [] a = tt
All-drop_oldest P ((key, e) ∷ d) a = All-pop P ((key, e) ∷ d) (oldest key e.expires_at d) a

All-shrink :
    (P : String → CacheEntry → Type 0) (fuel max_entries : ℕ) (d : Dict CacheEntry)
    → All P d
    → All P (shrink fuel max_entries d)
unfolding shrink
All-shrink P zero max_entries d a = a
All-shrink P (suc fuel) max_entries d a = elim (Bool-cases (ltb max_entries (size d))) [
  | inl e ↦ rw (e, shrink) (All-shrink P fuel max_entries (drop_oldest d) (All-drop_oldest P d a))
  | inr e ↦ rw (e, shrink) a
]

-- An entry that is not expired.
abbrev Alive : ℕ → String → CacheEntry → Type 0
Alive now key e = now < e.expires_at

All-drop_expired :
    (P : String → CacheEntry → Type 0) (now : ℕ) (d : Dict CacheEntry)
    → All P d
    → All P (drop_expired now d)
unfolding drop_expired
All-drop_expired P now [] a = tt
All-drop_expired P now ((key, e) ∷ d) a = elim (Bool-cases (ltb now e.expires_at)) [
  | inl h ↦ rw h (a.0, All-drop_expired P now d a.1)
  | inr h ↦ rw h (All-drop_expired P now d a.1)
]

drop_expired-Alive : (now : ℕ) (d : Dict CacheEntry) → All (Alive now) (drop_expired now d)
unfolding drop_expired
drop_expired-Alive now [] = tt
drop_expired-Alive now ((key, e) ∷ d) = elim (Bool-cases (ltb now e.expires_at)) [
  | inl h ↦ rw h (ground (arith, h), drop_expired-Alive now d)
  | inr h ↦ rw h (drop_expired-Alive now d)
]

pub All-prune_entries :
    (P : String → CacheEntry → Type 0) (now max_entries : ℕ) (d : Dict CacheEntry)
    → All P d
    → All P (prune_entries now max_entries d)
unfolding prune_entries
All-prune_entries P now max_entries d a =
    All-shrink P (size (drop_expired now d)) max_entries (drop_expired now d)
      (All-drop_expired P now d a)

-- Pruning ends with at most the configured number of entries, none of them expired, and where so
-- few are alive, it drops the expired entries alone.
pub pruned_within :
    (now max_entries : ℕ) (d : Dict CacheEntry)
    → (size (prune_entries now max_entries d) ≤ max_entries)
      × All (Alive now) (prune_entries now max_entries d)
      × (size (drop_expired now d) ≤ max_entries
          → prune_entries now max_entries d ≡ drop_expired now d)
unfolding prune_entries shrink drop_expired
pruned_within now max_entries d = (
  size-shrink (size left) max_entries left (omega arith),
  All-shrink (Alive now) (size left) max_entries left (drop_expired-Alive now d),
  λ h. rests (size left) h,
)
  where
    left : Dict CacheEntry
    left = drop_expired now d

    rests : (fuel : ℕ) → size left ≤ max_entries → shrink fuel max_entries left ≡ left
    rests zero h = refl
    rests (suc fuel) h =
        let e : ltb max_entries (size left) ≡ false = ground (arith, h) in rw (e, shrink) refl
