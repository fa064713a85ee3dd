-- ===== src/Failures/Public/Safe.antt =====
-- What a client is shown is readable text, never a payload or a bare code.
use jove_mage.Prelude.{
  String, ◌≡◌, ◌≢◌, refl, ◌⊎◌, inl, inr, Bool, true, false, not, ◌||◌, arith, str_neq, str_eq,
  if◌then◌else◌, strip, strip-strip, contains, Value, Fields, Bool-cases,
}
use jove_mage.Failures.{ImageFailure}
use jove_mage.Failures.Codes.{field_of}
use jove_mage.Failures.Public.{
  timeout_public_message, tool_error_public_message, quota_public_message,
  is_structured_failure_code, first_text, is_structured_text_payload, safe_string, error_text,
  safe_public_text, text_at, error_message, message_of, public_upstream_text,
  public_image_error_message, public_raw_detail_codes,
}

module _ (parses : String → Bool) where
  -- A text without white space around it that is neither a payload nor a code.
  abbrev pub IsReadable : String → Type 0
  IsReadable text =
      (strip text ≡ text)
      × (is_structured_text_payload parses text ≡ false)
      × (is_structured_failure_code text ≡ false)

  abbrev Safe : String → Type 0
  Safe text = (text ≡ "") ⊎ IsReadable text

  safe_string-Safe : (s : String) → Safe (safe_string parses s)
  unfolding safe_string
  safe_string-Safe s =
      elim (Bool-cases
        (is_structured_text_payload parses (strip s) || is_structured_failure_code (strip s))) [
          | inl e ↦ rw (e, safe_string) (inl refl)
          | inr e ↦ rw (e, safe_string) (inr (strip-strip s, ground (arith, e), ground (arith, e)))
        ]

  first_text-Safe : (a b : String) → Safe a → Safe b → Safe (first_text a b)
  unfolding first_text
  first_text-Safe a b p q = elim (Bool-cases (str_eq a "")) [ inl e ↦ rw e q | inr e ↦ rw e p ]

  error_text-Safe : (v : Value) → Safe (error_text parses v)
  unfolding error_text
  error_text-Safe (Value.str s) = safe_string-Safe s
  error_text-Safe Value.null = inl refl
  error_text-Safe (Value.bool b) = inl refl
  error_text-Safe (Value.int n) = inl refl
  error_text-Safe (Value.float m e) = inl refl
  error_text-Safe (Value.list xs) = inl refl
  error_text-Safe (Value.dict fs) = inl refl

  chosen-Safe : (b : Bool) (x y : String) → Safe x → Safe y → Safe (if b then x else y)
  chosen-Safe true x y p q = p
  chosen-Safe false x y p q = q

  mutual
    unfolding safe_public_text

    safe_public_text-Safe : (v : Value) → Safe (safe_public_text parses v)
    safe_public_text-Safe (Value.str s) = safe_string-Safe s
    safe_public_text-Safe (Value.dict fs) = first_text-Safe _ _ (error_message-Safe fs) (
        first_text-Safe _ _ (text_at-Safe "message" fs) (
          first_text-Safe _ _ (text_at-Safe "detail" fs) (
            first_text-Safe _ _ (text_at-Safe "error_description" fs)
              (error_text-Safe (field_of fs "error")))))
    safe_public_text-Safe Value.null = inl refl
    safe_public_text-Safe (Value.bool b) = inl refl
    safe_public_text-Safe (Value.int n) = inl refl
    safe_public_text-Safe (Value.float m e) = inl refl
    safe_public_text-Safe (Value.list xs) = inl refl

    text_at-Safe : (key : String) (fs : Fields) → Safe (text_at parses key fs)
    text_at-Safe key Fields.end = inl refl
    text_at-Safe key (Fields.field k v fs) =
        chosen-Safe (str_eq k key) _ _ (safe_public_text-Safe v) (text_at-Safe key fs)

    error_message-Safe : (fs : Fields) → Safe (error_message parses fs)
    error_message-Safe Fields.end = inl refl
    error_message-Safe (Fields.field k v fs) =
        chosen-Safe (str_eq k "error") _ _ (message_of-Safe v) (error_message-Safe fs)

    message_of-Safe : (v : Value) → Safe (message_of parses v)
    message_of-Safe (Value.dict fs) = text_at-Safe "message" fs
    message_of-Safe Value.null = inl refl
    message_of-Safe (Value.bool b) = inl refl
    message_of-Safe (Value.int n) = inl refl
    message_of-Safe (Value.float m e) = inl refl
    message_of-Safe (Value.str s) = inl refl
    message_of-Safe (Value.list xs) = inl refl

  upstream-Safe : (f : ImageFailure) (v : Value) → Safe (public_upstream_text parses f v)
  unfolding public_upstream_text
  upstream-Safe f v = first_text-Safe _ _ (safe_public_text-Safe (Value.str f.public_detail)) (
      first_text-Safe _ _ (safe_public_text-Safe v) (
        chosen-Safe (contains f.code public_raw_detail_codes) _ _
          (safe_public_text-Safe f.raw_detail) (inl refl)))

  -- One of the sentences, or a readable text.
  abbrev pub Shown : String → Type 0
  Shown text =
      (text ≡ timeout_public_message)
      ⊎ (text ≡ tool_error_public_message)
      ⊎ (text ≡ quota_public_message)
      ⊎ ((text ≢ "") × IsReadable text)

  fixed :
      (is_tool is_quota : Bool)
      → Shown (
          if is_tool
          then tool_error_public_message
          else if is_quota
          then quota_public_message
          else tool_error_public_message)
  fixed true is_quota = inr (inl refl)
  fixed false true = inr (inr (inl refl))
  fixed false false = inr (inl refl)

  shown :
      (is_poll is_stream is_tool is_quota : Bool) (text : String)
      → Safe text
      → Shown (
          if is_poll
          then timeout_public_message
          else if is_stream
          then tool_error_public_message
          else if not (str_eq text "")
          then text
          else if is_tool
          then tool_error_public_message
          else if is_quota
          then quota_public_message
          else tool_error_public_message)
  shown true is_stream is_tool is_quota text h = inl refl
  shown false true is_tool is_quota text h = inr (inl refl)
  shown false false is_tool is_quota text (inr h) = elim (Bool-cases (str_eq text "")) [
    | inl e ↦ rw e (fixed is_tool is_quota)
    | inr e ↦ rw e (inr (inr (inr (str_neq text "" e, h))))
  ]
  shown false false is_tool is_quota text (inl h) = rw h (fixed is_tool is_quota)

  -- The message that a client is shown for a failure is one of the three fixed sentences, or a text
  -- that is not empty, has no white space around it, is not read as JSON, also without its fences, and
  -- is none of the failure codes and statuses; and for a timeout of the polling it is the sentence for
  -- it, whatever the upstream service has written.
  pub public_message_is_readable :
      (f : ImageFailure) (raw_upstream_message : Value)
      → let text = public_image_error_message parses f raw_upstream_message in
        Shown text × ((f.code ≢ "image_poll_timeout") ⊎ (text ≡ timeout_public_message))
  unfolding public_image_error_message
  public_message_is_readable f v = (
    shown _ _ _ _ (public_upstream_text parses f v) (upstream-Safe f v),
    elim (Bool-cases (str_eq f.code "image_poll_timeout")) [
      | inl e ↦ inr (rw e refl)
      | inr e ↦ inl (str_neq f.code "image_poll_timeout" e)
    ],
  )
