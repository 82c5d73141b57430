-- ===== src/Redemption/Safety.antt =====
-- At most one submission of an intent, and one flight of an account, in every interleaving.
use context_rollover_guard.Prelude.{
  inr, inl, Option-cases, ap, ℕ, ◌+◌, ◌≤◌, ◌≡◌, refl, String, Bool, true, false, Option, none, some,
  List, [], ◌∷◌, ◌++◌, arith, str_eq, eq_iff, if◌then◌else◌, ok,
}
use context_rollover_guard.Redemption.Table.{
  weight_found, Intent, Payload, Status, cancelled, submitting, find, update, find-update, flights,
  flights-update, touch_found, is_prepared, is_submitting, is_accepted,
}
use context_rollover_guard.Redemption.{
  status_after, Receipt, Answer, verified, set_status, in_flight, prepare, claim, put_receipt,
  cancel, verify, account_in_flight,
}
use context_rollover_guard.Redemption.Calls.{
  World, Step, Reach, prepares, claims, loses, dispatch, die, receives, verifies, cancels, here,
  next,
}

-- How often a text stands in a list.
abbrev pub count : String → List String → ℕ
count s [] = 0
count s (x ∷ xs) = (if str_eq x s then 1 else 0) + count s xs

count-append : (s : String) (xs ys : List String) → count s (xs ++ ys) ≡ count s xs + count s ys
count-append s [] ys = omega arith
count-append s (x ∷ xs) ys = omega (arith, count-append s xs ys)

-- How many submissions the row of an intent allows.
abbrev allowed : Option Intent → ℕ
allowed none = 0
allowed (some i) = if is_prepared i.status then 0 else 1

record Inv (w : World) : Type 0 where
  once : (id : String) → count id w.claimed + count id w.calls ≤ allowed (find id w.rows)
  alone : (account : String) → flights account w.rows ≤ 1

not_in_flight :
    (account : String) (rows : List Intent)
    → account_in_flight account rows ≡ false
    → flights account rows ≡ 0
unfolding account_in_flight flights
not_in_flight account [] h = refl
not_in_flight account (r ∷ rs) h = ground (arith, not_in_flight account rs)

-- An update that keeps the payload, does not prepare a row again and puts none in flight.
record IsTame (test : Status → Bool) (f : Intent → Intent) : Type 0 where
  payload : (r : Intent) → (f r).payload ≡ r.payload
  started : (r : Intent) → test r.status ≡ true → is_prepared (f r).status ≡ false
  landed :
      (r : Intent)
      → test r.status ≡ true
      → in_flight (f r).status ≡ true
      → in_flight r.status ≡ true

tame-allowed :
    (test : Status → Bool) (f : Intent → Intent)
    → IsTame test f
    → (o : Option Intent) → allowed o ≤ allowed (touch_found test f o)
tame-allowed test f t none = omega arith
tame-allowed test f t (some r) = ground (arith, t.started r)

tame-weight :
    (test : Status → Bool) (f : Intent → Intent) (account : String)
    → IsTame test f
    → (o : Option Intent) → weight_found account (touch_found test f o) ≤ weight_found account o
tame-weight test f account t none = omega arith
tame-weight test f account t (some r) = ground (arith, t.landed r, t.payload r)

tame-Inv :
    (id : String) (test : Status → Bool) (f : Intent → Intent) (w : World)
    → IsTame test f
    → Inv w
    → Inv (record w { rows = update id test f w.rows })
tame-Inv id test f w t i = record {
  once = λ other. ground (
    arith,
    find-update id other test f (λ r. ap (λ (p : Payload). p.intent_id) (t.payload r)) w.rows,
    tame-allowed test f t (find other w.rows),
    i.once other,
  );
  alone = λ account. ground (
    arith,
    flights-update account id test f w.rows,
    tame-weight test f account t (find id w.rows),
    i.alone account,
  );
}

claim-Inv :
    (id account : String) (rows : List Intent) (w : World)
    → claim id account w.rows ≡ ok (rows, true)
    → (r : Intent) → find id w.rows ≡ some r
    → r.payload.account ≡ account
    → Inv w
    → Inv (record w { rows = rows; claimed = id ∷ w.claimed })
unfolding claim
claim-Inv id account rows w c r e a i = record {
  once = λ other. ground (
    arith,
    find-update id other is_prepared (set_status submitting) (λ r. refl) w.rows,
    i.once other,
    eq_iff id other,
  );
  alone = λ other. ground (
    arith,
    flights-update other id is_prepared (set_status submitting) w.rows,
    not_in_flight account w.rows,
    i.alone other,
    eq_iff account other,
  );
}

lose-Inv :
    (id account : String) (rows : List Intent) (w : World)
    → claim id account w.rows ≡ ok (rows, false)
    → Inv w
    → Inv (record w { rows = rows })
unfolding claim
lose-Inv id account rows w c i = record {
  once = λ other. ground (
    arith,
    find-update id other is_prepared (set_status submitting) (λ r. refl) w.rows,
    i.once other,
    eq_iff id other,
  );
  alone = λ other.
      ground
        (arith, flights-update other id is_prepared (set_status submitting) w.rows, i.alone other);
}

prepare-Inv :
    (blank : String → Bool) (hash : Payload → String) (p : Payload) (rows : List Intent) (w : World)
    → prepare blank hash p w.rows ≡ ok rows
    → Inv w
    → Inv (record w { rows = rows })
unfolding prepare find flights
prepare-Inv blank hash p rows w e i = record {
  once = λ other. ground (arith, i.once other, eq_iff p.intent_id other);
  alone = λ other. ground (arith, i.alone other);
}

receipt-IsTame :
    (a : Answer)
    → IsTame is_submitting (λ j. record j { receipt = some a; status = status_after a })
receipt-IsTame a = record {
  payload = λ r. refl;
  started = λ r h. ground arith;
  landed = λ r h k. ground arith;
}

put_receipt-Inv :
    (id : String) (r : Receipt) (rows : List Intent) (w : World)
    → put_receipt id r w.rows ≡ ok rows
    → Inv w
    → Inv (record w { rows = rows })
unfolding put_receipt
put_receipt-Inv id r rows w e i = elim (Option-cases r.status) [
  | inl no_answer ↦ absurd (ground arith)
  | inr (a, q) ↦ ground (arith, tame-Inv id is_submitting _ w (receipt-IsTame a) i)
]

verify-IsTame : IsTame is_accepted (λ j. record j { readback = true; status = verified })
verify-IsTame = record { payload = λ r. refl; started = λ r h. refl; landed = λ r h k. cc }

cancel-IsTame : IsTame is_prepared (set_status cancelled)
cancel-IsTame = record { payload = λ r. refl; started = λ r h. refl; landed = λ r h k. cc }

drop-count :
    (s id : String) (before after : List String)
    → count s (before ++ after) + (if str_eq id s then 1 else 0) ≡ count s (before ++ id ∷ after)
drop-count s id before after =
    omega (arith, count-append s before after, count-append s before (id ∷ after))

Step-Inv : {w u : World} → Step w u → Inv w → Inv u
Step-Inv {w} (prepares blank hash p rows e) i = prepare-Inv blank hash p rows w e i
Step-Inv {w} (claims id account rows e r f a) i = claim-Inv id account rows w e r f a i
Step-Inv {w} (loses id account rows e) i = lose-Inv id account rows w e i
Step-Inv {w} (dispatch before after id e) i = record {
  once = λ s. ground (arith, drop-count s id before after, ap (count s) e, i.once s);
  alone = i.alone;
}
Step-Inv {w} (die before after id e) i = record {
  once = λ s. ground (arith, drop-count s id before after, ap (count s) e, i.once s);
  alone = i.alone;
}
Step-Inv {w} (receives id r rows e) i = put_receipt-Inv id r rows w e i
Step-Inv {w} (verifies id) i = unfold verify in tame-Inv id is_accepted _ w verify-IsTame i
Step-Inv {w} (cancels id) i = unfold cancel in tame-Inv id is_prepared _ w cancel-IsTame i

abbrev pub empty : World
empty = record { rows = []; claimed = []; calls = [] }

empty-Inv : Inv empty
unfolding find flights
empty-Inv = record { once = λ id. omega arith; alone = λ account. omega arith }

Reach-Inv : {w : World} → Reach empty w → Inv w
Reach-Inv here = empty-Inv
Reach-Inv (next r s) = Step-Inv s (Reach-Inv r)

-- Whatever processes prepare, claim, call the adapter, die, reconcile and cancel on one table, and
-- in whatever order: the adapter's `submit` is called at most once for an intent, and an account
-- has at most one intent that is submitting or accepted.
pub Reach-once :
    {w : World}
    → Reach empty w
    → (id account : String) → (count id w.calls ≤ 1) × (flights account w.rows ≤ 1)
Reach-once {w} r id account =
    let i = Reach-Inv r in
    (ground (arith, i.once id, allowed-le-one (find id w.rows)), i.alone account)
  where
    allowed-le-one : (o : Option Intent) → allowed o ≤ 1
    allowed-le-one none = omega arith
    allowed-le-one (some r) = ground arith
