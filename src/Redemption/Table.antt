-- ===== src/Redemption/Table.antt =====
-- The table reset_intent of crg/redemption.py: its rows, and what a statement does to them.
use context_rollover_guard.Prelude.{
  ℕ, ◌+◌, ◌≡◌, refl, String, Bool, true, false, ◌&&◌, Option, none, some, List, [], ◌∷◌, arith,
  str_eq, eq_iff, if◌then◌else◌,
}

pub data Status : Type 0 where
  prepared submitting accepted declined verified cancelled : Status

-- The statuses of a receipt that `_receipt` admits.
pub data Answer : Type 0 where
  accepted_now already_redeemed no_credit nothing_to_reset ineligible : Answer

pub record Payload : Type 0 where
  pub intent_id : String
  pub account : String
  pub contract : String
  pub effect : String
  pub cost : String
  pub created_at : ℕ
  pub expires_at : ℕ

pub record Intent : Type 0 where
  pub payload : Payload
  pub approval_hash : String
  pub status : Status
  pub receipt : Option Answer
  -- the confirmation marker is there
  pub readback : Bool

abbrev pub is_prepared : Status → Bool
is_prepared prepared = true
is_prepared _ = false

abbrev pub is_submitting : Status → Bool
is_submitting submitting = true
is_submitting _ = false

abbrev pub is_accepted : Status → Bool
is_accepted accepted = true
is_accepted _ = false

-- `state IN ("SUBMITTING","ACCEPTED")`
abbrev pub in_flight : Status → Bool
in_flight submitting = true
in_flight accepted = true
in_flight _ = false

abbrev pub status_after : Answer → Status
status_after accepted_now = accepted
status_after already_redeemed = accepted
status_after _ = declined

abbrev pub same_answer : Answer → Answer → Bool
same_answer accepted_now accepted_now = true
same_answer already_redeemed already_redeemed = true
same_answer no_credit no_credit = true
same_answer nothing_to_reset nothing_to_reset = true
same_answer ineligible ineligible = true
same_answer _ _ = false

abbrev pub key : Intent → String
key i = i.payload.intent_id

-- SELECT … WHERE intent_id=?
unfoldable pub find : String → List Intent → Option Intent
find id [] = none
find id (r ∷ rs) = if str_eq (key r) id then some r else find id rs

-- UPDATE … SET … WHERE intent_id=? AND state=?
unfoldable pub update : String → (Status → Bool) → (Intent → Intent) → List Intent → List Intent
update id test f [] = []
update id test f (r ∷ rs) =
    let rest = update id test f rs in
    if str_eq (key r) id then (if test r.status then f r else r) ∷ rs else r ∷ rest

-- The row after an update that touches it.
abbrev pub touch : (Status → Bool) → (Intent → Intent) → Intent → Intent
touch test f r = if test r.status then f r else r

abbrev pub touch_found : (Status → Bool) → (Intent → Intent) → Option Intent → Option Intent
touch_found test f none = none
touch_found test f (some r) = some (touch test f r)

-- An update of one row does not reach the others.
pub find-update :
    (id other : String) (test : Status → Bool) (f : Intent → Intent)
    → ((r : Intent) → key (f r) ≡ key r)
    → (rows : List Intent)
    → find other (update id test f rows)
      ≡ (if str_eq id other then touch_found test f (find other rows) else find other rows)
unfolding find update
find-update id other test f keeps [] = ground arith
find-update id other test f keeps (r ∷ rs) = ground (
  arith,
  find-update id other test f keeps rs,
  keeps r,
  eq_iff (key r) id,
  eq_iff (key r) other,
  eq_iff id other,
)

-- 1 where the row is in flight for the account.
abbrev pub weight : String → Intent → ℕ
weight account r = if in_flight r.status && str_eq r.payload.account account then 1 else 0

-- How many rows are in flight for an account.
unfoldable pub flights : String → List Intent → ℕ
flights account [] = 0
flights account (r ∷ rs) = weight account r + flights account rs

abbrev pub weight_found : String → Option Intent → ℕ
weight_found account none = 0
weight_found account (some r) = weight account r

pub flights-update :
    (account id : String) (test : Status → Bool) (f : Intent → Intent) (rows : List Intent)
    → flights account (update id test f rows) + weight_found account (find id rows)
      ≡ flights account rows + weight_found account (touch_found test f (find id rows))
unfolding flights update find
flights-update account id test f [] = refl
flights-update account id test f (r ∷ rs) = ground (arith, flights-update account id test f rs)
