-- ===== src/Channels/Registry.antt =====
-- services/channels/registry.py: the static registry and the routing of models to channels. The
-- switches of the configuration are arguments: `none` where reading one raises.
pub mod Routing
use Prim.Native.String.{◌++◌ as text_append}
use text.Mathlib.Text.{starts_with}
use jove_mage.Prelude.{
  String, Bool, true, false, not, ◌&&◌, Option, none, some, List, [], ◌∷◌, map, str_eq, contains,
  if◌then◌else◌, strip, lower, Dict, get, values,
}

pub record ChannelEntry : Type 0 where
  pub id : String
  pub name : String
  pub icon : String
  pub color : Option String
  pub is_default : Bool
  pub credential_type : String
  pub registerable : Bool
  pub capabilities : List String
  pub enabled : Bool
  pub config_ns : String
  pub meter_kind : String

abbrev pub chatgpt_entry : ChannelEntry
chatgpt_entry = record {
  id = "chatgpt";
  name = "ChatGPT";
  icon = "mdi:chat-outline";
  color = none;
  is_default = true;
  credential_type = "token";
  registerable = true;
  capabilities = "chat" ∷ "image" ∷ "edit" ∷ [];
  enabled = true;
  config_ns = "";
  meter_kind = "quota";
}

abbrev pub firefly_entry : ChannelEntry
firefly_entry = record {
  id = "firefly";
  name = "Adobe Firefly";
  icon = "mdi:fire";
  color = some "ember";
  is_default = false;
  credential_type = "cookie";
  registerable = false;
  capabilities = "image" ∷ "edit" ∷ "video" ∷ [];
  enabled = false;
  config_ns = "channels.firefly";
  meter_kind = "credits";
}

-- `_REGISTRY`
abbrev pub registry : Dict ChannelEntry
registry = ("chatgpt", chatgpt_entry) ∷ ("firefly", firefly_entry) ∷ []

-- config.firefly_enabled and config.firefly_video_enabled
pub record Switches : Type 0 where
  pub firefly_enabled : Option Bool
  pub firefly_video_enabled : Option Bool

unfoldable pub read_enabled : Switches → String → Bool → Bool
read_enabled sw channel_id fallback =
    if str_eq channel_id "firefly"
    then elim sw.firefly_enabled [ none ↦ fallback | some b ↦ b ]
    else true

-- caps.remove(name): the first occurrence.
unfoldable pub remove_first : String → List String → List String
remove_first name [] = []
remove_first name (c ∷ caps) =
    let rest = remove_first name caps in if str_eq c name then caps else c ∷ rest

unfoldable pub video_allowed : Switches → Bool
video_allowed sw = elim sw.firefly_video_enabled [ none ↦ false | some b ↦ b ]

unfoldable pub with_live_enabled : Switches → ChannelEntry → ChannelEntry
unfolding read_enabled remove_first video_allowed contains
with_live_enabled sw entry = record entry {
  enabled = read_enabled sw entry.id entry.enabled;
  capabilities =
      if str_eq entry.id "firefly" && contains "video" entry.capabilities && not (video_allowed sw)
      then remove_first "video" entry.capabilities
      else entry.capabilities;
}

unfoldable pub get_channel : Switches → String → Option ChannelEntry
unfolding with_live_enabled
get_channel sw channel_id = elim (get registry (lower (strip channel_id))) [
  | none ↦ none
  | some entry ↦ some (with_live_enabled sw entry)
]

unfoldable pub list_channel_entries : Switches → List ChannelEntry
unfolding with_live_enabled
list_channel_entries sw = map (with_live_enabled sw) (values registry)

-- The loop of `channel_for_model` over the registry.
unfoldable pub route : String → Dict ChannelEntry → String
route text [] = "chatgpt"
route text ((channel_id, entry) ∷ rest) =
    let next = route text rest in
    if entry.is_default
    then next
    else if starts_with text (text_append channel_id "-")
    then channel_id
    else next

unfoldable pub channel_for_model : String → String
unfolding route
channel_for_model model_id =
    let text = lower (strip model_id) in if str_eq text "" then "chatgpt" else route text registry
