-- ===== src/Failures/Read.antt =====
-- Reading the values of upstream messages. `show` is Python's `str` of a value that is not a text.
use Prim.Native.String.{◌++◌ as text_append}
use text.Mathlib.Text.{starts_with}
use jove_mage.Prelude.{
  String, Bool, true, false, not, ◌&&◌, ◌||◌, ◌==◌, str_eq, if◌then◌else◌, strip, pos, negsuc,
  Value, Items, Fields,
}
use jove_mage.Failures.{normal_code}
use jove_mage.Failures.Codes.{field_of}

-- bool(value)
unfoldable pub is_truthy : Value → Bool
is_truthy Value.null = false
is_truthy (Value.bool b) = b
is_truthy (Value.int (pos n)) = not (n == 0)
is_truthy (Value.int (negsuc n)) = true
is_truthy (Value.float (pos m) e) = not (m == 0)
is_truthy (Value.float (negsuc m) e) = true
is_truthy (Value.str s) = not (str_eq s "")
is_truthy (Value.list Items.nil) = false
is_truthy (Value.list (Items.cons x xs)) = true
is_truthy (Value.dict Fields.end) = false
is_truthy (Value.dict (Fields.field k v fs)) = true

-- a or b
unfoldable pub or_value : Value → Value → Value
unfolding is_truthy
or_value a b = if is_truthy a then a else b

-- value is True
unfoldable pub is_true : Value → Bool
is_true (Value.bool b) = b
is_true Value.null = false
is_true (Value.int n) = false
is_true (Value.float m e) = false
is_true (Value.str s) = false
is_true (Value.list xs) = false
is_true (Value.dict fs) = false

-- `_mapping`
unfoldable pub mapping : Value → Fields
mapping (Value.dict fs) = fs
mapping Value.null = Fields.end
mapping (Value.bool b) = Fields.end
mapping (Value.int n) = Fields.end
mapping (Value.float m e) = Fields.end
mapping (Value.str s) = Fields.end
mapping (Value.list xs) = Fields.end

unfoldable pub is_mapping : Value → Bool
is_mapping (Value.dict fs) = true
is_mapping Value.null = false
is_mapping (Value.bool b) = false
is_mapping (Value.int n) = false
is_mapping (Value.float m e) = false
is_mapping (Value.str s) = false
is_mapping (Value.list xs) = false

-- `_message`
unfoldable pub message_of_value : Value → Fields
unfolding mapping is_mapping field_of
message_of_value value =
    let item = mapping value in
    let inner = field_of (mapping (field_of item "v")) "message" in
    if is_mapping (field_of item "message")
    then mapping (field_of item "message")
    else if is_mapping inner
    then mapping inner
    else item

-- "".join(part for part in parts if isinstance(part, str))
unfoldable pub join_parts : Items → String
join_parts Items.nil = ""
join_parts (Items.cons (Value.str s) xs) = text_append s (join_parts xs)
join_parts (Items.cons Value.null xs) = join_parts xs
join_parts (Items.cons (Value.bool b) xs) = join_parts xs
join_parts (Items.cons (Value.int n) xs) = join_parts xs
join_parts (Items.cons (Value.float m e) xs) = join_parts xs
join_parts (Items.cons (Value.list ys) xs) = join_parts xs
join_parts (Items.cons (Value.dict fs) xs) = join_parts xs

unfoldable pub parts_text : Value → String
unfolding join_parts strip
parts_text (Value.list xs) = strip (join_parts xs)
parts_text Value.null = ""
parts_text (Value.bool b) = ""
parts_text (Value.int n) = ""
parts_text (Value.float m e) = ""
parts_text (Value.str s) = ""
parts_text (Value.dict fs) = ""

-- pointer.startswith(("file-service://", "sediment://"))
unfoldable pub is_pointer : Value → Bool
is_pointer (Value.str s) = starts_with s "file-service://" || starts_with s "sediment://"
is_pointer Value.null = false
is_pointer (Value.bool b) = false
is_pointer (Value.int n) = false
is_pointer (Value.float m e) = false
is_pointer (Value.list xs) = false
is_pointer (Value.dict fs) = false

unfoldable mutual
  unfolding is_pointer field_of

  pub has_pointer : Value → Bool
  has_pointer (Value.dict fs) = is_pointer (field_of fs "asset_pointer") || fields_point fs
  has_pointer (Value.list xs) = items_point xs
  has_pointer Value.null = false
  has_pointer (Value.bool b) = false
  has_pointer (Value.int n) = false
  has_pointer (Value.float m e) = false
  has_pointer (Value.str s) = false

  pub items_point : Items → Bool
  items_point Items.nil = false
  items_point (Items.cons x xs) = has_pointer x || items_point xs

  pub fields_point : Fields → Bool
  fields_point Fields.end = false
  fields_point (Fields.field k x fs) = has_pointer x || fields_point fs

module _ (show : Value → String) (parses : String → Bool) where
  -- str(value or "")
  unfoldable pub text_of : Value → String
  unfolding is_truthy
  text_of (Value.str s) = s
  text_of Value.null = ""
  text_of (Value.bool b) = if b then show (Value.bool b) else ""
  text_of (Value.int n) = if is_truthy (Value.int n) then show (Value.int n) else ""
  text_of (Value.float m e) = if is_truthy (Value.float m e) then show (Value.float m e) else ""
  text_of (Value.list xs) = if is_truthy (Value.list xs) then show (Value.list xs) else ""
  text_of (Value.dict fs) = if is_truthy (Value.dict fs) then show (Value.dict fs) else ""

  -- str(fields.get(key) or "").strip().lower()
  unfoldable pub code_at : Fields → String → String
  unfolding field_of text_of normal_code
  code_at fs key = normal_code (text_of (field_of fs key))

  -- `_message_text`
  unfoldable pub message_text : Fields → String
  unfolding field_of parts_text mapping text_of strip
  message_text message = elim (field_of message "content") [
    | Value.str s ↦ strip s
    | Value.null ↦ ""
    | Value.bool b ↦ ""
    | Value.int n ↦ ""
    | Value.float m e ↦ ""
    | Value.list xs ↦ ""
    | Value.dict content ↦
        let joined = parts_text (field_of content "parts") in
        if str_eq joined "" then strip (text_of (field_of content "text")) else joined
  ]

  -- `_message_has_image_output`
  unfoldable pub message_has_image_output : Fields → Bool
  unfolding code_at mapping has_pointer
  message_has_image_output message =
      str_eq (code_at (mapping (field_of message "author")) "role") "tool"
      && str_eq (code_at (mapping (field_of message "metadata")) "async_task_type") "image_gen"
      && has_pointer (field_of message "content")
