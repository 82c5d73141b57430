-- ===== src/Redemption.antt =====
-- Durable reset intents (crg/redemption.py). The table is a list of rows with the key `intent_id`:
-- a statement that names a key acts on its first row, the only one there can be. ISO timestamps in
-- UTC are compared as instants, which are numbers of microseconds.
pub mod Table
pub mod Calls
pub mod Safety
pub mod Refine
use context_rollover_guard.Prelude.{
  ℕ, ◌-◌, ◌*◌, String, Bool, true, false, ◌&&◌, ◌||◌, not, Option, none, some, List, [], ◌∷◌, any,
  ltb, leb, str_eq, if◌then◌else◌, Result, ok, err, ◌>>=◌, ◌>>◌, raise_if, or_raise,
}
use Table.{
  Status, prepared, submitting, accepted, declined, verified, cancelled, Payload, Intent, Answer,
  find, update, in_flight, is_prepared, is_submitting, is_accepted, status_after, same_answer,
}

pub data Refusal : Type 0 where
  unknown_intent missing_terms bad_expiry duplicate_key not_approved contract_changed not_eligible :
      Refusal
  account_busy ambiguous_receipt conflicting_receipt : Refusal

-- What `adapter.read_state` returned: its keys, where they are there.
pub record Snapshot : Type 0 where
  pub account : Option String
  pub contract : Option String
  pub eligible : Bool
  pub redeemed_intent : Option String

-- A receipt: `status` is `none` where it is none of the five known ones.
pub record Receipt : Type 0 where
  pub intent_id : Option String
  pub account : Option String
  pub status : Option Answer

abbrev pub names : String → Option String → Bool
names s none = false
names s (some t) = str_eq t s

unfoldable pub get : String → List Intent → Result Refusal Intent
get id rows = or_raise (find id rows) unknown_intent

abbrev five_minutes : ℕ
five_minutes = 300 * 1000000

-- prepare, with a fresh `uuid4` and the hash of the payload; `blank` is `not value.strip()`
unfoldable pub prepare :
    (String → Bool) → (Payload → String) → Payload → List Intent → Result Refusal (List Intent)
prepare blank hash p rows = do
  raise_if (any blank (p.account ∷ p.contract ∷ p.effect ∷ p.cost ∷ [])) missing_terms
  raise_if (not (ltb p.created_at p.expires_at && leb (p.expires_at - p.created_at) five_minutes))
      bad_expiry
  raise_if (elim (find p.intent_id rows) [ none ↦ false | some r ↦ true ]) duplicate_key
  ok (
      record {
        payload = p;
        approval_hash = hash p;
        status = prepared;
        receipt = none;
        readback = false;
      }
      ∷ rows)

-- The arguments of `submit` that come from the host.
pub record Approval : Type 0 where
  pub approved_hash : String
  pub user_approved : Bool
  pub at : ℕ

-- The tests of `submit` before its transaction.
unfoldable pub check_submit : Approval → String → Snapshot → Intent → Result Refusal (Unit {0})
check_submit a adapter_contract before i = do
  raise_if
      (not a.user_approved
        || not (str_eq a.approved_hash i.approval_hash)
        || not (leb i.payload.created_at a.at && ltb a.at i.payload.expires_at))
      not_approved
  raise_if (not (str_eq adapter_contract i.payload.contract)) contract_changed
  raise_if
      (not (names i.payload.account before.account)
        || not (names i.payload.contract before.contract)
        || not before.eligible)
      not_eligible

-- Another intent of the account is in flight.
unfoldable pub account_in_flight : String → List Intent → Bool
account_in_flight account rows =
    any (λ r. in_flight r.status && str_eq r.payload.account account) rows

abbrev pub set_status : Status → Intent → Intent
set_status s i = record i { status = s }

-- The transaction of `submit`: the rows after it, and whether this call made the claim.
unfoldable pub claim : String → String → List Intent → Result Refusal (List Intent × Bool)
claim id account rows = do
  raise_if (account_in_flight account rows) account_busy
  ok (
    update id is_prepared (set_status submitting) rows,
    (elim (find id rows) [ none ↦ false | some i ↦ is_prepared i.status ]),
  )

-- _receipt
unfoldable pub put_receipt : String → Receipt → List Intent → Result Refusal (List Intent)
put_receipt id r rows = do
  i ← get id rows
  raise_if (not (names id r.intent_id) || not (names i.payload.account r.account)) ambiguous_receipt
  answer ← or_raise r.status ambiguous_receipt
  raise_if (elim i.receipt [ none ↦ false | some old ↦ not (same_answer old answer) ])
      conflicting_receipt
  ok (
      update id is_submitting
        (λ j. record j { receipt = some answer; status = status_after answer }) rows)

-- cancel: the update is committed before the row is read back
unfoldable pub cancel : String → List Intent → List Intent
cancel id rows = update id is_prepared (set_status cancelled) rows

-- The last update of `reconcile`.
unfoldable pub verify : String → List Intent → List Intent
verify id rows = update id is_accepted (λ j. record j { readback = true; status = verified }) rows

-- The tests of `reconcile` on the account's state after the redemption.
unfoldable pub reads_back : String → Intent → Snapshot → Bool
reads_back id i s =
    names i.payload.account s.account
    && names i.payload.contract s.contract
    && names id s.redeemed_intent
