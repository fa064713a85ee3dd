-- ===== src/ChatCache/Answers.antt =====
-- What a request finds in the cache.
use jove_mage.Prelude.{
  ℕ, ◌<◌, String, ◌≡◌, subst, ◌⊎◌, inl, inr, true, false, none, some, [], ◌∷◌, arith, str_eq, Dict,
  get, Bool-cases, Option-cases, Value,
}
use jove_mage.ChatCache.{
  CacheEntry, Settings, hit, owns, waits_for, limit, prune_entries, fresh_value, lookup,
}
use jove_mage.ChatCache.Internal.{leaks}
use jove_mage.ChatCache.Bound.{All-prune_entries}
use jove_mage.ChatCache.Single.{System, IsSingle, Clean, lookup_cases}

Clean-get :
    (d : Dict CacheEntry) (key : String) (e : CacheEntry)
    → Clean d
    → get d key ≡ some e
    → leaks e.value ≡ false
unfolding get
Clean-get [] key e clean h = absurd (ground (arith, h))
Clean-get ((j, f) ∷ d) key e clean h = elim (Bool-cases (str_eq j key)) [
  | inl hit_key ↦
      let same : some f ≡ some e = ground (arith, h, hit_key) in
      subst (λ o. elim o [ none ↦ Unit | some g ↦ leaks g.value ≡ false ]) same clean.0
  | inr miss ↦ Clean-get d key e clean.1 (ground (arith, h, miss))
]

-- The value of a hit is that of an entry which is not expired.
fresh_entry :
    (d : Dict CacheEntry) (now : ℕ) (key : String) (v : Value)
    → fresh_value now d key ≡ some v
    → (e : CacheEntry) × (get d key ≡ some e) × (e.value ≡ v) × (now < e.expires_at)
unfolding fresh_value
fresh_entry d now key v h = elim (Option-cases (get d key)) [
  | inl e ↦ absurd (ground (arith, h, e))
  | inr (f, e) ↦ (f, e, ground (arith, h, e), ground (arith, h, e))
]

-- In such a cache, a request finds the value of an entry of its key that is not expired and holds no
-- internal field, or is told to wait for the computation of its key that runs, or computes itself
-- where none runs.
pub found_is_sound :
    (s : Settings) (now : ℕ) (id key : String) (sys : System)
    → s.dedupe_inflight ≡ true
    → IsSingle sys
    → let r = lookup s now id sys.cache key in
      ((v : Value) × (r.1 ≡ hit v)
        × (leaks v ≡ false)
        × ((e : CacheEntry) × (get r.0.entries key ≡ some e)
            × (e.value ≡ v)
            × (now < e.expires_at)))
      ⊎ ((other : String) × (r.1 ≡ waits_for other) × (get sys.running key ≡ some other))
      ⊎ ((r.1 ≡ owns) × (get sys.running key ≡ none))
found_is_sound s now id key sys d single =
    let (entries, found) = lookup_cases s now id sys.cache key d in
    let kept : Clean (prune_entries now (limit s) sys.cache.entries) =
      All-prune_entries (λ key e. leaks e.value ≡ false) now (limit s) sys.cache.entries
        single.clean in
    elim found [
      | inl (v, e, _, h) ↦
          let (f, at, same, alive) =
            fresh_entry (prune_entries now (limit s) sys.cache.entries) now key v h in
          inl (
            v,
            e,
            subst (λ w. leaks w ≡ false) same
                (Clean-get (prune_entries now (limit s) sys.cache.entries) key f kept at),
            (f, rw entries at, same, alive),
          )
      | inr (inl (other, e, _, h)) ↦ inr (inl (other, e, ground (arith, single.shared key, h)))
      | inr (inr (e, _, free)) ↦ inr (inr (e, ground (arith, single.shared key, free)))
    ]
