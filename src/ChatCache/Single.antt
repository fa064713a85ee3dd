-- ===== src/ChatCache/Single.antt =====
-- Runs of the cache: no key is computed twice at a time, and nothing internal is handed out.
use jove_mage.Prelude.{
  ℕ, String, ◌≡◌, refl, ◌⊎◌, inl, inr, true, false, none, some, List, [], ◌∷◌, arith, str_eq, Dict,
  get, put, pop, get-put, get-pop, IsUnique, IsUnique-pop, Bool-cases, Option-cases, Value, Items,
}
use jove_mage.ChatCache.{
  Cache, CacheEntry, Settings, Found, hit, owns, waits_for, limit, prune_entries, fresh_value,
  shared_call, lookup, store_value, store_response, store_stream, abort,
}
use jove_mage.ChatCache.Internal.{
  leaks, strip_value, strip_items, leaks-strip_value, leaks-strip_items,
}
use jove_mage.ChatCache.Bound.{All, All-prune_entries}

-- The cache, and the computations that run, each under its key with the identity of its call.
pub record System : Type 0 where
  pub cache : Cache
  pub running : Dict String

-- What happens to the cache: a request, the end of a computation with a response, with the chunks of
-- a stream, or with an error. Only a running computation ends.
pub data Event : Type 0 where
  requests : ℕ → String → String → Event
  responds : ℕ → ℕ → Value → String → Event
  streams : ℕ → ℕ → Items → String → Event
  breaks : String → String → Event

-- A request that owns its computation starts it.
unfoldable pub joins : String → String → Dict String → Cache × Found → System
joins key id running r = record {
  cache = r.0;
  running = elim r.1 [ hit v ↦ running | waits_for other ↦ running | owns ↦ (key, id) ∷ running ];
}

-- The end of the computation of a key, if one runs.
unfoldable pub ends : (String → Cache) → String → System → System
ends after key sys = elim (get sys.running key) [
  | none ↦ sys
  | some id ↦ record { cache = after id; running = pop sys.running key }
]

unfoldable pub handle_event : Settings → System → Event → System
unfolding joins ends
handle_event s sys (requests now id key) = joins key id sys.running (lookup s now id sys.cache key)
handle_event s sys (responds now later value key) =
    ends (λ id. store_response s now later id value sys.cache key) key sys
handle_event s sys (streams now later chunks key) =
    ends (λ id. store_stream s now later id chunks sys.cache key) key sys
handle_event s sys (breaks error key) = ends (λ id. abort id error sys.cache key) key sys

unfoldable pub handle_events : Settings → System → List Event → System
handle_events s sys [] = sys
handle_events s sys (e ∷ events) = handle_events s (handle_event s sys e) events

-- No key is computed twice, the calls in flight are those that run, and no entry holds an internal
-- field.
pub record IsSingle (sys : System) : Type 0 where
  pub once : IsUnique sys.running
  pub shared : (key : String) → get sys.cache.inflight key ≡ get sys.running key
  pub clean : All (λ key e. leaks e.value ≡ false) sys.cache.entries

-- What a lookup does, by what it finds.
pub lookup_cases :
    (s : Settings) (now : ℕ) (id : String) (c : Cache) (key : String)
    → s.dedupe_inflight ≡ true
    → let r = lookup s now id c key in
      (r.0.entries ≡ prune_entries now (limit s) c.entries)
      × (((v : Value) × (r.1 ≡ hit v)
            × (r.0.inflight ≡ c.inflight)
            × (fresh_value now (prune_entries now (limit s) c.entries) key ≡ some v))
          ⊎ ((other : String) × (r.1 ≡ waits_for other)
              × (r.0.inflight ≡ c.inflight)
              × (get c.inflight key ≡ some other))
          ⊎ ((r.1 ≡ owns) × (r.0.inflight ≡ put c.inflight key id) × (get c.inflight key ≡ none)))
unfolding lookup
lookup_cases s now id c key d =
    elim (Option-cases (fresh_value now (prune_entries now (limit s) c.entries) key)) [
      | inr (v, e) ↦ rw (e, lookup) (refl, inl (v, refl, refl, refl))
      | inl e ↦ elim (Option-cases (shared_call s c key)) [
        | inr (other, f) ↦
            rw (e, f, lookup)
              (refl, inr (inl (other, refl, refl, unfold shared_call in ground (arith, d, f))))
        | inl f ↦
            rw (e, f, lookup)
              (
                refl,
                inr (inr (refl, ground (arith, d), unfold shared_call in ground (arith, d, f))),
              )
      ]
    ]

All-put :
    (P : String → CacheEntry → Type 0) (d : Dict CacheEntry) (k : String) (e : CacheEntry)
    → ((j : String) → P j e)
    → All P d
    → All P (put d k e)
unfolding put
All-put P [] k e p a = (p k, tt)
All-put P ((j, f) ∷ d) k e p a = elim (Bool-cases (str_eq j k)) [
  | inl h ↦ rw h (p j, a.1)
  | inr h ↦ rw h (a.0, All-put P d k e p a.1)
]

-- No internal field stands in an entry.
abbrev pub Clean : Dict CacheEntry → Type 0
Clean d = All (λ key e. leaks e.value ≡ false) d

request-IsSingle :
    (s : Settings) (now : ℕ) (id key : String) (sys : System)
    → s.dedupe_inflight ≡ true
    → IsSingle sys
    → IsSingle (joins key id sys.running (lookup s now id sys.cache key))
unfolding joins
request-IsSingle s now id key sys d single =
    let (entries, found) = lookup_cases s now id sys.cache key d in
    let clean : Clean (lookup s now id sys.cache key).0.entries = rw entries (
      All-prune_entries (λ key e. leaks e.value ≡ false) now (limit s) sys.cache.entries
        single.clean) in
    elim found [
      | inl (v, e, same, _) ↦
          rw e
            (record { once = single.once; shared = λ k. rw same (single.shared k); clean = clean })
      | inr (inl (other, e, same, _)) ↦
          rw e
            (record { once = single.once; shared = λ k. rw same (single.shared k); clean = clean })
      | inr (inr (e, same, free)) ↦ rw e (record {
        once = (ground (arith, free, single.shared key), single.once);
        shared = λ k.
            rw same
              (unfold get in ground (arith, get-put sys.cache.inflight key k id, single.shared k));
        clean = clean;
      })
    ]

end-IsSingle :
    (after : String → Cache) (key : String) (sys : System)
    → ((id : String) → (after id).inflight ≡ pop sys.cache.inflight key)
    → ((id : String) → Clean (after id).entries)
    → IsSingle sys
    → IsSingle (ends after key sys)
unfolding ends
end-IsSingle after key sys popped clean single = elim (Option-cases (get sys.running key)) [
  | inl e ↦ rw (e, ends) single
  | inr (id, e) ↦
      rw (e, ends)
        (record {
          once = IsUnique-pop sys.running key single.once;
          shared = λ k. rw (popped id) (
              ground (
                arith,
                get-pop sys.cache.inflight key k,
                get-pop sys.running key k,
                single.shared k,
              ));
          clean = clean id;
        })
]

store-Clean :
    (s : Settings) (now later : ℕ) (id : String) (value : Value) (c : Cache) (key : String)
    → leaks value ≡ false
    → Clean c.entries
    → Clean (store_value s now later id value c key).entries
unfolding store_value
store-Clean s now later id value c key h clean =
    All-prune_entries (λ key e. leaks e.value ≡ false) later (limit s) (put c.entries key _)
      (All-put (λ key e. leaks e.value ≡ false) c.entries key _ (λ j. h) clean)

handle_event-IsSingle :
    (s : Settings) (sys : System) (event : Event)
    → s.dedupe_inflight ≡ true
    → IsSingle sys
    → IsSingle (handle_event s sys event)
unfolding handle_event
handle_event-IsSingle s sys (requests now id key) d single =
    request-IsSingle s now id key sys d single
handle_event-IsSingle s sys (responds now later value key) d single =
    end-IsSingle (λ id. store_response s now later id value sys.cache key) key sys
      (λ id. unfold store_response in unfold store_value in refl)
      (λ id.
        unfold store_response in
        store-Clean s now later id (strip_value value) sys.cache key (leaks-strip_value value)
          single.clean)
      single
handle_event-IsSingle s sys (streams now later chunks key) d single =
    end-IsSingle (λ id. store_stream s now later id chunks sys.cache key) key sys
      (λ id. unfold store_stream in unfold store_value in refl)
      (λ id.
        unfold store_stream in
        store-Clean s now later id (Value.list (strip_items chunks)) sys.cache key
          (leaks-strip_items chunks) single.clean)
      single
handle_event-IsSingle s sys (breaks error key) d single =
    end-IsSingle (λ id. abort id error sys.cache key) key sys (λ id. unfold abort in refl)
      (λ id. unfold abort in single.clean) single

-- Where calls in flight are shared, and no two computations of one key run, the calls that
-- requests of a key are told to wait for are those that run, and no entry holds an internal field
-- at any depth, all this holds after any requests and ends of computations, in whatever order.
pub handle_events-IsSingle :
    (s : Settings) (sys : System) (events : List Event)
    → s.dedupe_inflight ≡ true
    → IsSingle sys
    → IsSingle (handle_events s sys events)
unfolding handle_events
handle_events-IsSingle s sys [] d single = single
handle_events-IsSingle s sys (e ∷ events) d single =
    handle_events-IsSingle s (handle_event s sys e) events d
      (handle_event-IsSingle s sys e d single)
