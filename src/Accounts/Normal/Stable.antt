-- ===== src/Accounts/Normal/Stable.antt =====
-- Normalizing an account again changes nothing.
use jove_mage.Prelude.{
  ℕ, String, ◌≡◌, refl, subst, inl, inr, Bool, false, ◌||◌, Option, none, some, arith, str_eq,
  if◌then◌else◌, strip, lower, strip-strip, strip-lower, lower-lower, Bool-cases,
}
use jove_mage.Accounts.{Account, Item}
use jove_mage.Accounts.Normal.{
  or_text, or_time, normalize_source_type, is_codex, normalize_account, to_item, renormalize,
  is_untried_codex, normal_fields, merged_quota, merged_unknown,
}

or_text-ne : (a b : String) → str_eq b "" ≡ false → str_eq (or_text a b) "" ≡ false
unfolding or_text
or_text-ne a b h = ground arith

or_text-left : (a b : String) → str_eq a "" ≡ false → or_text a b ≡ a
unfolding or_text
or_text-left a b h = rw h

or_text-or_text : (a b : String) → or_text (or_text a b) b ≡ or_text a b
unfolding or_text
or_text-or_text a b = elim (Bool-cases (str_eq a "")) [
  | inl e ↦ rw e (ground arith)
  | inr e ↦ rw e (rw e refl)
]

or_time-or_time : (t : Option ℕ) (now later : ℕ) → or_time (or_time t now) later ≡ or_time t now
unfolding or_time
or_time-or_time none now later = refl
or_time-or_time (some s) now later = refl

trim_stable : (s : String) → lower (strip (lower (strip s))) ≡ lower (strip s)
trim_stable s = rw (strip-lower (strip s), strip-strip s, lower-lower (strip s))

pub normalize_source_type-normalize_source_type :
    (s : String) → normalize_source_type (normalize_source_type s) ≡ normalize_source_type s
unfolding normalize_source_type
normalize_source_type-normalize_source_type s = go (or_text s "web")
  where
    web : normalize_source_type "web" ≡ "web"
    web = unfold normalize_source_type or_text strip lower in refl

    go :
        (z : String)
        → normalize_source_type (or_text (lower (strip z)) "web") ≡ or_text (lower (strip z)) "web"
    go z = elim (Bool-cases (str_eq (lower (strip z)) "")) [
      | inl e ↦ unfold or_text in rw e web
      | inr e ↦ rw (or_text-left (lower (strip z)) "web" e) (
          unfold normalize_source_type in
          rw (
            or_text-left (lower (strip z)) "web" e,
            trim_stable z,
            or_text-left (lower (strip z)) "web" e,
          ))
    ]

normalize_source_type-ne : (s : String) → str_eq (normalize_source_type s) "" ≡ false
unfolding normalize_source_type
normalize_source_type-ne s = or_text-ne (lower (strip (or_text s "web"))) "web" refl

-- The plan that `normalize_account` stores.
abbrev plan : String → String
plan type = if is_codex type then "free" else or_text type "free"

free_not_codex : is_codex "free" ≡ false
unfolding is_codex strip lower
free_not_codex = refl

plan-not-codex : (type : String) → is_codex (plan type) ≡ false
plan-not-codex type = elim (Bool-cases (is_codex type)) [
  | inl e ↦ rw e free_not_codex
  | inr e ↦ rw e (elim (Bool-cases (str_eq type "")) [
    | inl blank ↦ unfold or_text in rw blank free_not_codex
    | inr filled ↦ rw (or_text-left type "free" filled) e
  ])
]

plan-stable : (type : String) → or_text (plan type) "free" ≡ plan type
plan-stable type = elim (Bool-cases (is_codex type)) [
  | inl e ↦ rw e (unfold or_text in refl)
  | inr e ↦ rw e (or_text-or_text type "free")
]

or_twice : (a b : Bool) → ((a || b) || b) ≡ (a || b)
or_twice a b = ground arith

is_untried_codex-to_item :
    (now : ℕ) (item : Item) (source_type status : String) (quota : ℕ)
    → is_untried_codex source_type quota status (to_item (normal_fields now item))
      ≡ is_untried_codex source_type quota status item
unfolding is_untried_codex to_item normal_fields
is_untried_codex-to_item now item source_type status quota = refl

normal_fields-normal_fields :
    (now later : ℕ) (item : Item)
    → normal_fields later (to_item (normal_fields now item)) ≡ normal_fields now item
normal_fields-normal_fields now later item =
    unfold normal_fields to_item merged_quota merged_unknown in
    rw (
      plan-not-codex item.type,
      plan-stable item.type,
      or_text-or_text item.status "正常",
      strip-strip item.proxy,
      normalize_source_type-ne,
      normalize_source_type-normalize_source_type,
      is_untried_codex-to_item now item,
      or_twice,
      or_text-or_text item.restore_at,
      or_time-or_time,
    )

-- Normalizing an account that normalization has made, at any later time, returns it as it is: the
-- plan, the status, the source, the quota and the flag of an unknown quota are all settled by the
-- first time.
pub normalize_twice :
    (now later : ℕ) (item : Item) (a : Account)
    → normalize_account now item ≡ some a
    → renormalize later a ≡ some a
unfolding normalize_account normal_fields
normalize_twice now later item a h = elim (Bool-cases (str_eq item.access_token "")) [
  | inl e ↦ absurd (ground (arith, e))
  | inr e ↦
      let b = normal_fields now item in
      let same : b ≡ a = ground (arith, e) in
      subst (λ x. renormalize later x ≡ some x) same
        (unfold renormalize in rw (e, normal_fields-normal_fields now later item) refl)
]
