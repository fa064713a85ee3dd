-- ===== src/Failures/Conversation.antt =====
-- The messages of a conversation's current turn, and the failure of the turn. `rank` is the place of
-- `float(create_time or 0.0)` among the times, 0.0's where it raises.
pub mod Lineage
pub mod Turn
use Prim.Native.String.{compare}
use mathlib.Core.List.{reverse}
use text.Mathlib.Text.{is_lt}
use jove_mage.Prelude.{
  ℕ, zero, suc, String, Bool, true, false, not, ◌&&◌, ◌||◌, ltb, ◌==◌, Option, none, some, List, [],
  ◌∷◌, str_eq, if◌then◌else◌, strip, Dict, get, has, size, contains, Value, Fields,
}
use jove_mage.Failures.{ImageFailure, normal_code}
use jove_mage.Failures.Codes.{field_of}
use jove_mage.Failures.Read.{
  mapping, message_of_value, is_true, or_value, text_of, code_at, message_text,
  message_has_image_output,
}
use jove_mage.Failures.Messages.{
  is_terminal_message_status, classify_upstream_message, merge_message_failure,
}

-- The items of a mapping.
unfoldable pub as_dict : Fields → Dict Value
as_dict Fields.end = []
as_dict (Fields.field k v fs) = (k, v) ∷ as_dict fs

unfoldable pub is_blank : Fields → Bool
is_blank Fields.end = true
is_blank (Fields.field k v fs) = false

-- _mapping(mapping.get(node_id))
unfoldable pub node_of : Dict Value → String → Fields
unfolding mapping
node_of nodes node_id = elim (get nodes node_id) [ none ↦ Fields.end | some node ↦ mapping node ]

-- A node that is not in the fallback's list has no message.
unfoldable pub add_message : Fields → List Fields → List Fields
unfolding is_blank
add_message message messages = if is_blank message then messages else message ∷ messages

-- A message with what it is ordered by.
pub record Ordered : Type 0 where
  pub time : ℕ
  pub node_id : String
  pub message : Fields

-- (create_time, node id) is smaller.
unfoldable pub comes_before : Ordered → Ordered → Bool
comes_before a b = ltb a.time b.time || (a.time == b.time && is_lt (compare a.node_id b.node_id))

unfoldable pub insert_ordered : Ordered → List Ordered → List Ordered
unfolding comes_before
insert_ordered a [] = a ∷ []
insert_ordered a (b ∷ items) =
    let rest = insert_ordered a items in if comes_before a b then a ∷ b ∷ items else b ∷ rest

unfoldable pub sort_ordered : List Ordered → List Ordered
unfolding insert_ordered
sort_ordered [] = []
sort_ordered (a ∷ items) = insert_ordered a (sort_ordered items)

unfoldable pub messages_of : List Ordered → List Fields
messages_of [] = []
messages_of (a ∷ items) = a.message ∷ messages_of items

module _ (show : Value → String) (parses : String → Bool) (rank : Value → ℕ) where
  -- str(node.get("parent") or "").strip()
  unfoldable pub parent_of : Fields → String
  unfolding field_of text_of strip
  parent_of node = strip (text_of show parses (field_of node "parent"))

  -- Whether the walk goes on from the node: it is named, not visited, and there.
  unfoldable pub walks_on : Dict Value → String → List String → Bool
  unfolding contains is_blank node_of
  walks_on nodes node_id visited =
      not (str_eq node_id "")
      && not (contains node_id visited)
      && not (is_blank (node_of nodes node_id))

  -- The walk to the root: the messages on the way, and where it ends.
  unfoldable pub lineage :
      ℕ → Dict Value → String → List String → List Fields × String × List String
  unfolding parent_of walks_on add_message message_of_value
  lineage zero nodes node_id visited = ([], node_id, visited)
  lineage (suc fuel) nodes node_id visited =
      let node = node_of nodes node_id in
      let rest = lineage fuel nodes (parent_of node) (node_id ∷ visited) in
      if walks_on nodes node_id visited
      then (add_message (message_of_value (Value.dict node)) rest.0, rest.1, rest.2)
      else ([], node_id, visited)

  -- The messages by time, where there is no current node.
  unfoldable pub ordered_messages : Dict Value → List Ordered
  unfolding is_blank message_of_value field_of
  ordered_messages [] = []
  ordered_messages ((node_id, node) ∷ nodes) =
      let rest = ordered_messages nodes in
      let message = message_of_value node in
      if is_blank message
      then rest
      else record {
        time = rank (field_of message "create_time");
        node_id = node_id;
        message = message;
      }
        ∷ rest

  unfoldable pub role_of : Fields → String
  unfolding field_of mapping code_at
  role_of message = code_at show parses (mapping (field_of message "author")) "role"

  unfoldable pub has_user : List Fields → Bool
  unfolding role_of
  has_user [] = false
  has_user (message ∷ messages) = str_eq (role_of message) "user" || has_user messages

  -- messages[last_user_index + 1:]
  unfoldable pub after_last_user : List Fields → List Fields
  unfolding has_user role_of
  after_last_user [] = []
  after_last_user (message ∷ messages) =
      let rest = after_last_user messages in
      if has_user messages
      then rest
      else if str_eq (role_of message) "user"
      then messages
      else message ∷ messages

  unfoldable pub ordered_turn : Dict Value → String → List Fields
  unfolding lineage sort_ordered messages_of ordered_messages
  ordered_turn nodes current_node =
      if not (str_eq current_node "") && has nodes current_node
      then reverse (lineage (size nodes) nodes current_node []).0
      else messages_of (sort_ordered (ordered_messages nodes))

  -- `_current_conversation_turn`
  unfoldable pub current_conversation_turn : Value → List Fields
  unfolding as_dict field_of mapping text_of strip ordered_turn after_last_user
  current_conversation_turn conversation =
      let outer = mapping conversation in
      after_last_user (
        ordered_turn (as_dict (mapping (field_of outer "mapping")))
          (strip (text_of show parses (field_of outer "current_node"))))

  -- A message that ends the assistant's turn in text.
  unfoldable pub is_terminal_text : Fields → Bool
  unfolding role_of code_at mapping field_of or_value text_of normal_code is_true
      is_terminal_message_status
  is_terminal_text message =
      let content_type =
        code_at show parses (mapping (field_of message "content")) "content_type" in
      let metadata = mapping (field_of message "metadata") in
      let status =
        normal_code (
          text_of show parses
            (or_value (field_of message "status") (field_of metadata "status"))) in
      str_eq (role_of message) "assistant"
      && (str_eq content_type "text" || str_eq content_type "code")
      && (is_true (field_of message "end_turn") || is_terminal_message_status status)

  unfoldable pub first_terminal_text : List Fields → String
  unfolding is_terminal_text message_text
  first_terminal_text [] = ""
  first_terminal_text (message ∷ messages) =
      let rest = first_terminal_text messages in
      if is_terminal_text message then message_text show parses message else rest

  -- `terminal_assistant_text`
  unfoldable pub terminal_assistant_text : Value → String
  unfolding current_conversation_turn first_terminal_text
  terminal_assistant_text conversation =
      first_terminal_text (reverse (current_conversation_turn conversation))

  unfoldable pub any_image_output : List Fields → Bool
  unfolding message_has_image_output
  any_image_output [] = false
  any_image_output (message ∷ messages) =
      message_has_image_output show parses message || any_image_output messages

  -- The loop over the messages.
  unfoldable pub merge_all : Option ImageFailure → List Fields → Option ImageFailure
  unfolding merge_message_failure classify_upstream_message
  merge_all failure [] = failure
  merge_all failure (message ∷ messages) =
      merge_all
        (merge_message_failure show parses failure
          (classify_upstream_message show parses (Value.dict message)))
        messages

  -- `classify_conversation_failure`
  unfoldable pub classify_conversation_failure : Value → Option ImageFailure
  unfolding current_conversation_turn any_image_output merge_all
  classify_conversation_failure conversation =
      let turn = current_conversation_turn conversation in
      let failure = merge_all none turn in if any_image_output turn then none else failure
