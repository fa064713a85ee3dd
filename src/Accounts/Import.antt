-- ===== src/Accounts/Import.antt =====
-- `_add_account_payloads`. A payload is its token and what its keys write over another payload. The
-- cumulative total of accounts grows by the number that is returned.
pub mod Growth
use jove_mage.Prelude.{
  ℕ, suc, ◌+◌, String, Bool, true, false, not, ◌&&◌, ◌||◌, Option, none, some, List, [], ◌∷◌,
  str_eq, if◌then◌else◌, strip, Dict, get, put, pop,
}
use jove_mage.Accounts.{Item, Account, Pool, save}
use jove_mage.Accounts.Normal.{normalize_account, normalize_source_type, to_item, or_text, or_time}
use jove_mage.Accounts.Views.{blank}

pub record Payload : Type 0 where
  pub token : String
  pub writes : Item → Item

-- The payload's own keys.
unfoldable pub own : Payload → Item
unfolding blank
own payload = payload.writes blank

-- {**current, **payload}, for the payloads of one token, in the order of the first of each.
unfoldable pub dedupe : Dict (Item → Item) → List Payload → Dict (Item → Item)
dedupe seen [] = seen
dedupe seen (payload ∷ payloads) =
    if str_eq payload.token ""
    then dedupe seen payloads
    else dedupe
        (put seen payload.token (elim (get seen payload.token) [
          | none ↦ payload.writes
          | some first ↦ λ item. payload.writes (first item)
        ]))
        payloads

unfoldable pub account_id_of : Item → String
account_id_of item = or_text (strip item.account_id) (strip item.user_id)

-- The token of the Firefly account with that identity.
unfoldable pub find_firefly : Dict Account → String → Option String
find_firefly [] account_id = none
find_firefly ((token, a) ∷ accounts) account_id =
    let rest = find_firefly accounts account_id in
    if str_eq (normalize_source_type a.source_type) "firefly"
      && (str_eq (strip a.account_id) account_id || str_eq (strip a.user_id) account_id)
    then some token
    else rest

-- The account that a Firefly payload names by its identity.
unfoldable pub existing_firefly : Pool → Payload → Option String
unfolding own account_id_of find_firefly
existing_firefly p payload =
    if str_eq (normalize_source_type (own payload).source_type) "firefly"
      && not (str_eq (account_id_of (own payload)) "")
    then find_firefly p.accounts (account_id_of (own payload))
    else none

-- {**existing, **payload}, with the time at which the account was created.
unfoldable pub merged_account : ℕ → Account → Payload → Option Account
unfolding to_item
merged_account now existing payload =
    normalize_account now (record (payload.writes (to_item existing)) {
      access_token = payload.token;
      created_at = or_time existing.created_at now;
    })

-- The Firefly account under its new token.
unfoldable pub rotate_firefly : ℕ → Pool → String → Account → Payload → Pool
unfolding merged_account
rotate_firefly now p existing_token existing payload = elim (merged_account now existing payload) [
  | none ↦ p
  | some account ↦
      if str_eq existing_token payload.token
      then record p { accounts = put p.accounts payload.token account }
      else record p {
        accounts = put (pop p.accounts existing_token) payload.token account;
        token_aliases = put p.token_aliases existing_token payload.token;
      }
]

-- The account of a payload over the one that its token has, or over nothing.
unfoldable pub incoming_account : ℕ → Item → Payload → Option Account
unfolding own
incoming_account now base payload =
    let mine = own payload in
    normalize_account now (record (payload.writes base) {
      access_token = payload.token;
      created_at = elim mine.created_at [ none ↦ base.created_at | some t ↦ some t ];
      type = or_text mine.type (or_text base.type "free");
    })

unfoldable pub put_account : Pool → String → Option Account → Pool
put_account p token none = p
put_account p token (some account) = record p { accounts = put p.accounts token account }

-- The case of an account that the pool does not have: it may be a Firefly account's new token.
unfoldable pub add_new : ℕ → Pool → Payload → Pool × Bool
unfolding existing_firefly rotate_firefly incoming_account put_account
add_new now p payload = elim (existing_firefly p payload) [
  | none ↦ (
    put_account p payload.token
        (incoming_account now (record blank { created_at = some now }) payload),
    true,
  )
  | some existing_token ↦ elim (get p.accounts existing_token) [
    | none ↦ (p, false)
    | some existing ↦ (rotate_firefly now p existing_token existing payload, false)
  ]
]

-- One payload; the answer is whether it counts as added.
unfoldable pub add_payload : ℕ → Pool → Payload → Pool × Bool
unfolding add_new
add_payload now p payload = elim (get p.accounts payload.token) [
  | none ↦ add_new now p payload
  | some current ↦
      (put_account p payload.token (incoming_account now (to_item current) payload), false)
]

unfoldable pub add_all : ℕ → Pool → ℕ → Dict (Item → Item) → Pool × ℕ
unfolding add_payload
add_all now p added [] = (p, added)
add_all now p added ((token, writes) ∷ payloads) =
    let s = add_payload now p (record { token = token; writes = writes }) in
    add_all now s.0 (if s.1 then suc added else added) payloads

-- `_add_account_payloads`: the pool and the number of accounts added.
unfoldable pub add_account_payloads : ℕ → Pool → List Payload → Pool × ℕ
unfolding dedupe add_all save
add_account_payloads now p payloads = elim (dedupe [] payloads) [
  | [] ↦ (p, 0)
  | first ∷ rest ↦ let s = add_all now p 0 (first ∷ rest) in (save s.0, s.1)
]
