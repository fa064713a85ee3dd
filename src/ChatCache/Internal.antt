-- ===== src/ChatCache/Internal.antt =====
-- `_strip_internal_response_fields`: what is cached holds no internal field.
use jove_mage.Prelude.{
  String, ◌≡◌, refl, Bool, false, ◌||◌, List, [], ◌∷◌, arith, if◌then◌else◌, contains, Value, Items,
  Fields,
}

-- INTERNAL_RESPONSE_KEYS
abbrev pub internal_response_keys : List String
internal_response_keys =
    "_account_email" ∷ "_conversation_id" ∷ "_call_id" ∷ "_trace_id" ∷ "_image_urls" ∷ []

unfoldable mutual
  unfolding contains

  -- `_strip_internal_response_fields`
  pub strip_value : Value → Value
  strip_value Value.null = Value.null
  strip_value (Value.bool b) = Value.bool b
  strip_value (Value.int n) = Value.int n
  strip_value (Value.float m e) = Value.float m e
  strip_value (Value.str s) = Value.str s
  strip_value (Value.list xs) = Value.list (strip_items xs)
  strip_value (Value.dict fs) = Value.dict (strip_fields fs)

  pub strip_items : Items → Items
  strip_items Items.nil = Items.nil
  strip_items (Items.cons x xs) = Items.cons (strip_value x) (strip_items xs)

  pub strip_fields : Fields → Fields
  strip_fields Fields.end = Fields.end
  strip_fields (Fields.field key x fs) =
      if contains key internal_response_keys
      then strip_fields fs
      else Fields.field key (strip_value x) (strip_fields fs)

-- Whether an internal key stands in the value, at any depth.
unfoldable mutual
  pub leaks : Value → Bool
  leaks Value.null = false
  leaks (Value.bool b) = false
  leaks (Value.int n) = false
  leaks (Value.float m e) = false
  leaks (Value.str s) = false
  leaks (Value.list xs) = items_leak xs
  leaks (Value.dict fs) = fields_leak fs

  pub items_leak : Items → Bool
  items_leak Items.nil = false
  items_leak (Items.cons x xs) = leaks x || items_leak xs

  pub fields_leak : Fields → Bool
  fields_leak Fields.end = false
  fields_leak (Fields.field key x fs) =
      contains key internal_response_keys || leaks x || fields_leak fs

mutual
  unfolding strip_value leaks

  value_clean : (v : Value) → leaks (strip_value v) ≡ false
  value_clean Value.null = refl
  value_clean (Value.bool b) = refl
  value_clean (Value.int n) = refl
  value_clean (Value.float m e) = refl
  value_clean (Value.str s) = refl
  value_clean (Value.list xs) = items_clean xs
  value_clean (Value.dict fs) = fields_clean fs

  items_clean : (xs : Items) → items_leak (strip_items xs) ≡ false
  items_clean Items.nil = refl
  items_clean (Items.cons x xs) = ground (arith, value_clean x, items_clean xs)

  fields_clean : (fs : Fields) → fields_leak (strip_fields fs) ≡ false
  fields_clean Fields.end = refl
  fields_clean (Fields.field key x fs) = ground (arith, value_clean x, fields_clean fs)

pub leaks-strip_value : (v : Value) → leaks (strip_value v) ≡ false
leaks-strip_value v = value_clean v

pub leaks-strip_items : (xs : Items) → leaks (Value.list (strip_items xs)) ≡ false
unfolding leaks
leaks-strip_items xs = items_clean xs
