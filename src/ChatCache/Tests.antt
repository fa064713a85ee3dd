-- ===== src/ChatCache/Tests.antt =====
-- Runs of the cache of chat completions, and instances of its theorems.
use jove_mage.Prelude.{
  ◌≤◌, ◌<◌, ◌≡◌, refl, ◌⊎◌, String, true, false, none, some, List, [], ◌∷◌, get, put, size, Value,
  Fields,
}
use jove_mage.ChatCache.{
  CacheEntry, Settings, hit, owns, waits_for, raises, lookup, prune_entries, await_call, abort,
}
use jove_mage.ChatCache.Internal.{strip_value, leaks}
use jove_mage.ChatCache.Messages.{
  Message, MessageSettings, normalize_text_messages, normalized_messages,
}
use jove_mage.ChatCache.Bound.{pruned_within}
use jove_mage.ChatCache.Answers.{found_is_sound}
use jove_mage.ChatCache.Single.{
  System, Event, requests, responds, handle_events, IsSingle, handle_events-IsSingle,
}

abbrev settings : Settings
settings = record {
  enabled = true;
  stream_cache = true;
  ttl_seconds = 60;
  max_entries = 2;
  dedupe_inflight = true;
}

abbrev nothing : System
nothing = record { cache = record { entries = []; inflight = []; calls = [] }; running = [] }

nothing-IsSingle : IsSingle nothing
unfolding get
nothing-IsSingle = record { once = tt; shared = λ k. refl; clean = tt }

-- A response with an internal field.
abbrev response : Value
response =
    Value.dict
      (Fields.field "_call_id" (Value.str "7") (Fields.field "id" (Value.str "x") Fields.end))

stripped : strip_value response ≡ Value.dict (Fields.field "id" (Value.str "x") Fields.end)
unfolding strip_value
stripped = refl

abbrev events : List Event
events =
    requests 1 "c1" "k" ∷ requests 2 "c2" "k" ∷ responds 3 4 response "k" ∷ requests 5 "c3" "k" ∷ []

handle_events-IsSingle_example : IsSingle (handle_events settings nothing events)
handle_events-IsSingle_example =
    handle_events-IsSingle settings nothing events refl nothing-IsSingle

found_is_sound_example :
    let r = lookup settings 1 "c1" nothing.cache "k" in
    ((v : Value) × (r.1 ≡ hit v)
      × (leaks v ≡ false)
      × ((e : CacheEntry) × (get r.0.entries "k" ≡ some e) × (e.value ≡ v) × (1 < e.expires_at)))
    ⊎ ((other : String) × (r.1 ≡ waits_for other) × (get nothing.running "k" ≡ some other))
    ⊎ ((r.1 ≡ owns) × (get nothing.running "k" ≡ none))
found_is_sound_example = found_is_sound settings 1 "c1" "k" nothing refl nothing-IsSingle

abbrev three : List (String × CacheEntry)
three =
    ("a", record { expires_at = 9; value = Value.null })
    ∷ ("b", record { expires_at = 5; value = Value.null })
    ∷ ("c", record { expires_at = 7; value = Value.null })
    ∷ []

pruned_within_example : size (prune_entries 2 2 three) ≤ 2
pruned_within_example = (pruned_within 2 2 three).0

abbrev role : String → Message
role r = record { role = r; body = Value.str r }

abbrev all_on : MessageSettings
all_on = record {
  normalize_messages = true;
  drop_assistant_history = true;
  drop_adjacent_duplicates = true;
}

normalized_messages_example :
    normalize_text_messages
      (λ m. m.role)
      all_on
      (normalize_text_messages
        (λ m. m.role)
        all_on
        (role "user" ∷ role "assistant" ∷ role "user" ∷ []))
    ≡ normalize_text_messages
        (λ m. m.role)
        all_on
        (role "user" ∷ role "assistant" ∷ role "user" ∷ [])
normalized_messages_example =
    (normalized_messages (λ m. m.role) all_on (role "user" ∷ role "assistant" ∷ role "user" ∷ [])).0

raised : await_call (abort "c1" "boom" nothing.cache "k") "c1" ≡ raises "boom"
unfolding await_call abort get put
raised = refl
