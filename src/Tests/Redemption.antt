-- ===== src/Tests/Redemption.antt =====
-- A reset intent that is prepared, submitted and verified.
use context_rollover_guard.Prelude.{◌≤◌, refl, true, false, none, some, [], ◌∷◌}
use context_rollover_guard.Redemption.Table.{
  submitting, prepared, accepted_now, Payload, Intent, find, update, flights,
}
use context_rollover_guard.Redemption.{Snapshot, Approval, prepare, claim, account_in_flight}
use context_rollover_guard.Redemption.Calls.{
  dispatch, claims, prepares, here, next, World, Reach, Adapter, submit,
}
use context_rollover_guard.Redemption.Safety.{empty, count, Reach-once}
use context_rollover_guard.Redemption.Refine.{submit-Reach}

abbrev payload : Payload
payload = record {
  intent_id = "i";
  account = "a";
  contract = "c";
  effect = "reset";
  cost = "1 credit";
  created_at = 10;
  expires_at = 100;
}

abbrev row : Intent
row = record {
  payload = payload;
  approval_hash = "h";
  status = prepared;
  receipt = none;
  readback = false;
}

abbrev stored : World
stored = record { rows = row ∷ []; claimed = []; calls = [] }

abbrev approval : Approval
approval = record { approved_hash = "h"; user_approved = true; at = 50 }

abbrev snapshot : Snapshot
snapshot = record {
  account = some "a";
  contract = some "c";
  eligible = true;
  redeemed_intent = some "i";
}

abbrev adapter : Adapter
adapter = record {
  contract = "c";
  before = some snapshot;
  receipt = some (record { intent_id = some "i"; account = some "a"; status = some accepted_now });
  lookup = none;
  after = some snapshot;
}

submit-Reach_example : Reach stored (submit "i" approval adapter stored)
submit-Reach_example = submit-Reach "i" approval adapter stored

abbrev claimed_world : World
claimed_world = record {
  rows = record row { status = submitting } ∷ [];
  claimed = "i" ∷ [];
  calls = [];
}

called : Reach empty (record claimed_world { claimed = []; calls = "i" ∷ [] })
unfolding prepare claim account_in_flight update find
called =
    next
      (next (next here (prepares (λ s. false) (λ p. "h") payload (row ∷ []) refl))
        (claims "i" "a" (record row { status = submitting } ∷ []) refl row refl refl))
      (dispatch [] [] "i" refl)

Reach-once_example :
    (count "i" ("i" ∷ []) ≤ 1) × (flights "a" (record row { status = submitting } ∷ []) ≤ 1)
Reach-once_example = Reach-once called "i" "a"
