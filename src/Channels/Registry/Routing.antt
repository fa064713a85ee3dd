-- ===== src/Channels/Registry/Routing.antt =====
-- Every model belongs to a registered channel, and Firefly's video capability follows its switch.
use text.Mathlib.Text.{starts_with}
use mathlib.Core.Bool.{false≢true}
use jove_mage.Prelude.{
  String, ◌≡◌, subst, ◌⊎◌, inl, inr, refl, true, false, none, some, [], ◌∷◌, arith, eq_iff, str_eq,
  if◌then◌else◌, strip, lower, get, has, Bool-cases,
}
use jove_mage.Channels.Registry.{
  Switches, registry, firefly_entry, chatgpt_entry, get_channel, channel_for_model, route,
}

routed :
    (model : String)
    → ((starts_with (lower (strip model)) "firefly-" ≡ true)
        × (channel_for_model model ≡ "firefly"))
      ⊎ ((starts_with (lower (strip model)) "firefly-" ≡ false)
          × (channel_for_model model ≡ "chatgpt"))
unfolding channel_for_model
routed model = by_text (lower (strip model))
  where
    by_text :
        (text : String)
        → ((starts_with text "firefly-" ≡ true)
            × ((if str_eq text "" then "chatgpt" else route text registry) ≡ "firefly"))
          ⊎ ((starts_with text "firefly-" ≡ false)
              × ((if str_eq text "" then "chatgpt" else route text registry) ≡ "chatgpt"))
    by_text text = elim (Bool-cases (starts_with text "firefly-")) [
      | inl e ↦ elim (Bool-cases (str_eq text "")) [
        | inl blank ↦
            let hit : starts_with "" "firefly-" ≡ true =
              subst (λ t. starts_with t "firefly-" ≡ true) ((eq_iff text "").0 blank) e in
            absurd (false≢true hit)
        | inr filled ↦ inl (e, rw (filled, e))
      ]
      | inr e ↦ inr (e, ground (arith, e))
    ]

-- A model goes to Firefly exactly when its id, trimmed and in lower case, starts with `firefly-`;
-- every other model goes to the default channel. Either way the registry holds the channel.
pub channel_for_model_cases :
    (model : String)
    → (has registry (channel_for_model model) ≡ true)
      × (((starts_with (lower (strip model)) "firefly-" ≡ true)
            × (channel_for_model model ≡ "firefly"))
          ⊎ ((starts_with (lower (strip model)) "firefly-" ≡ false)
              × (channel_for_model model ≡ "chatgpt")))
channel_for_model_cases model = (registered (routed model), routed model)
  where
    registered :
        ((starts_with (lower (strip model)) "firefly-" ≡ true)
            × (channel_for_model model ≡ "firefly"))
          ⊎ ((starts_with (lower (strip model)) "firefly-" ≡ false)
              × (channel_for_model model ≡ "chatgpt"))
        → has registry (channel_for_model model) ≡ true
    registered (inl (_, e)) = rw e (unfold has in refl)
    registered (inr (_, e)) = rw e (unfold has in refl)

-- `get_channel` knows two ids, up to spaces around and capital letters. ChatGPT is always enabled;
-- Firefly is enabled as its switch says, and has the video capability only while the video switch
-- is on; with a configuration that cannot be read both count as off.
pub get_channel_cases :
    (sw : Switches) (channel_id : String)
    → get_channel sw channel_id ≡ (
        if str_eq (lower (strip channel_id)) "chatgpt"
        then some chatgpt_entry
        else if str_eq (lower (strip channel_id)) "firefly"
        then some (record firefly_entry {
          enabled = elim sw.firefly_enabled [ none ↦ false | some b ↦ b ];
          capabilities =
              if elim sw.firefly_video_enabled [ none ↦ false | some b ↦ b ]
              then "image" ∷ "edit" ∷ "video" ∷ []
              else "image" ∷ "edit" ∷ [];
        })
        else none)
unfolding get_channel get
get_channel_cases sw channel_id = ground (
  arith,
  eq_iff "chatgpt" (lower (strip channel_id)),
  eq_iff (lower (strip channel_id)) "chatgpt",
  eq_iff "firefly" (lower (strip channel_id)),
  eq_iff (lower (strip channel_id)) "firefly",
)
