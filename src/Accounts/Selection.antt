-- ===== src/Accounts/Selection.antt =====
-- Which accounts can make an image, and how a call takes a slot of one of them.
pub mod Slots
pub mod Refusal
pub mod Turns
use Prim.Native.Char.{code}
use jove_mage.Prelude.{
  ℕ, ◌+◌, ◌-◌, ◌%◌, max, String, Bool, true, false, not, ◌&&◌, ◌||◌, Option, none, some, List, [],
  ◌∷◌, length, get_elem?, select, count_if, ltb, leb, ◌==◌, str_eq, if◌then◌else◌, contains, strip,
  lower, Dict, get, put, pop, values,
}
use jove_mage.Accounts.{Account, Pool, Config}
use jove_mage.Accounts.Normal.{normalize_source_type}

-- raw.lower().replace("-", "_").replace(" ", "_"): the text `key`.
unfoldable pub joined : String → String
joined String.[] = ""
joined (String.◌∷◌ c s) =
    String.◌∷◌ (if code c == b'-' || code c == b' ' then "_" else c) (joined s)

-- key.replace("_", "")
unfoldable pub compacted : String → String
compacted String.[] = ""
compacted (String.◌∷◌ c s) =
    let rest = compacted s in if code c == b'_' then rest else String.◌∷◌ c rest

abbrev pub plan_aliases : Dict String
plan_aliases =
    ("free", "free")
    ∷ ("plus", "Plus")
    ∷ ("pro", "Pro")
    ∷ ("prolite", "ProLite")
    ∷ ("team", "Team")
    ∷ ("business", "Team")
    ∷ ("enterprise", "Enterprise")
    ∷ []

-- `_normalize_account_type`; the empty text is None.
unfoldable pub normalize_account_type : String → String
unfolding joined compacted
normalize_account_type value =
    let raw = strip value in
    let key = joined (lower raw) in
    if str_eq raw "" then "" else elim (get plan_aliases (compacted key)) [
      | some plan ↦ plan
      | none ↦ elim (get plan_aliases key) [ some plan ↦ plan | none ↦ raw ]
    ]

-- `_is_image_account_available`
unfoldable pub is_image_account_available : Account → Bool
unfolding contains
is_image_account_available a =
    let status = strip a.status in
    if contains status ("禁用" ∷ "限流" ∷ "异常" ∷ "invalid" ∷ "disabled" ∷ "deleted" ∷ [])
    then false
    else if str_eq (normalize_source_type a.source_type) "firefly"
    then contains status ("正常" ∷ "active" ∷ "" ∷ []) || ltb 0 a.quota
    else if a.image_quota_unknown
    then true
    else str_eq status "正常" || ltb 0 a.quota

-- What a request asks for; an empty text or list stands for None.
pub record Request : Type 0 where
  pub plan_type : String
  pub source_type : String
  pub plan_types : List String

-- `_account_matches_plan_type`
unfoldable pub matches_plan_type : Account → String → Bool
matches_plan_type a plan_type =
    if str_eq plan_type ""
    then true
    else (let wanted = normalize_account_type plan_type in
        let got = normalize_account_type a.type in
        not (str_eq wanted "") && not (str_eq got "") && str_eq (lower wanted) (lower got))

-- Whether one of the plans is, normalized, the given one.
unfoldable pub names_plan : String → List String → Bool
names_plan got [] = false
names_plan got (plan ∷ plans) =
    let wanted = normalize_account_type plan in
    (not (str_eq wanted "") && str_eq wanted got) || names_plan got plans

-- `_account_matches_any_plan_type`
unfoldable pub matches_any_plan_type : Account → List String → Bool
unfolding names_plan
matches_any_plan_type a [] = true
matches_any_plan_type a (plan ∷ plans) =
    let got = normalize_account_type a.type in not (str_eq got "") && names_plan got (plan ∷ plans)

-- `_account_matches_source_type`: without a wish, every source but Firefly.
unfoldable pub matches_source_type : Account → String → Bool
matches_source_type a source_type =
    let got = normalize_source_type a.source_type in
    if str_eq source_type ""
    then not (str_eq got "firefly")
    else str_eq got (normalize_source_type source_type)

unfoldable pub matches : Request → Account → Bool
unfolding matches_plan_type matches_any_plan_type matches_source_type
matches r a =
    matches_plan_type a r.plan_type
    && matches_any_plan_type a r.plan_types
    && matches_source_type a r.source_type

-- A token to hand out: it is not empty and the caller has not excluded it.
unfoldable pub is_open : List String → String → Bool
unfolding contains
is_open excluded token = not (str_eq token "") && not (contains token excluded)

unfoldable pub is_ready : Request → List String → Account → Bool
is_ready r excluded a =
    is_image_account_available a && matches r a && is_open excluded a.access_token

unfoldable pub tokens_of : List Account → List String
tokens_of [] = []
tokens_of (a ∷ accounts) = a.access_token ∷ tokens_of accounts

-- `_list_ready_candidate_tokens`
unfoldable pub list_ready_candidate_tokens : Pool → Request → List String → List String
unfolding tokens_of
list_ready_candidate_tokens p r excluded =
    tokens_of (select (is_ready r excluded) (values p.accounts))

-- self._image_inflight.get(token, 0)
unfoldable pub inflight : Pool → String → ℕ
inflight p token = elim (get p.image_inflight token) [ none ↦ 0 | some n ↦ n ]

unfoldable pub max_concurrency : Config → ℕ
max_concurrency c = max 1 c.image_account_concurrency

-- `_list_available_candidate_tokens`
unfoldable pub list_available_candidate_tokens : Pool → Config → Request → List String → List String
list_available_candidate_tokens p c r excluded =
    select (λ token. ltb (inflight p token) (max_concurrency c))
      (list_ready_candidate_tokens p r excluded)

pub data Kind : Type 0 where
  quota_exhausted unavailable : Kind

pub data Pick : Type 0 where
  picked : String → Pick
  refused : Kind → Pick
  waits : Pick

-- An account that the request is about, whatever its state.
unfoldable pub is_matched : Request → List String → Account → Bool
is_matched r excluded a = is_open excluded a.access_token && matches r a

-- `_no_ready_candidate_error`
unfoldable pub no_ready_candidate_error : Pool → Request → List String → Kind
no_ready_candidate_error p r excluded =
    let matched = count_if (is_matched r excluded) (values p.accounts) in
    let limited =
      count_if (λ a. is_matched r excluded a && str_eq a.status "限流") (values p.accounts) in
    if ltb 0 matched && limited == matched then quota_exhausted else unavailable

-- The slot of a token that is taken, and the turn that is over.
unfoldable pub take_slot : Pool → String → Pool
unfolding inflight
take_slot p token = record p {
  image_inflight = put p.image_inflight token (inflight p token + 1);
  index = p.index + 1;
}

-- One round of `_acquire_next_candidate_token` under the lock; `waits` where the caller waits for a
-- slot and tries again.
unfoldable pub acquire_next_candidate_token : Pool → Config → Request → List String → Pool × Pick
unfolding take_slot
acquire_next_candidate_token p c r excluded =
    let tokens = list_available_candidate_tokens p c r excluded in
    elim (list_ready_candidate_tokens p r excluded) [
      | [] ↦ (p, refused (no_ready_candidate_error p r excluded))
      | _ ∷ _ ↦ elim (get_elem? tokens (p.index % length tokens)) [
        | none ↦ (p, waits)
        | some token ↦ (take_slot p token, picked token)
      ]
    ]

-- The choice of `get_text_access_token`, before the token is refreshed; `none` for no candidate.
unfoldable pub is_text_candidate : List String → Account → Bool
unfolding contains
is_text_candidate excluded a =
    not (contains a.status ("禁用" ∷ "异常" ∷ "invalid" ∷ "disabled" ∷ "deleted" ∷ []))
    && not (str_eq (normalize_source_type a.source_type) "firefly")
    && is_open excluded a.access_token

unfoldable pub text_candidates : Pool → List String → List String
unfolding is_text_candidate tokens_of
text_candidates p excluded = tokens_of (select (is_text_candidate excluded) (values p.accounts))

unfoldable pub pick_text_access_token : Pool → List String → Pool × Option String
pick_text_access_token p excluded =
    let candidates = text_candidates p excluded in
    elim (get_elem? candidates (p.index % length candidates)) [
      | none ↦ (p, none)
      | some token ↦ (record p { index = p.index + 1 }, some token)
    ]

-- `_release_image_slot_locked`, on a token that is resolved.
unfoldable pub release_slot : Pool → String → Pool
release_slot p token = record p {
  image_inflight =
      if leb (inflight p token) 1
      then pop p.image_inflight token
      else put p.image_inflight token (inflight p token - 1);
}
