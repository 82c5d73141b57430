-- ===== src/Redemption/Calls.antt =====
-- `submit` and `reconcile` as whole calls, and the interleavings of several processes on one table
-- (crg/redemption.py). An adapter call raises or the process dies where its reply is `none`.
use context_rollover_guard.Prelude.{
  ◌≡◌, String, Bool, true, false, Option, none, some, List, ◌∷◌, ◌++◌, str_eq, if◌then◌else◌,
  Result, ok, err,
}
use context_rollover_guard.Redemption.Table.{
  Intent, Payload, find, is_prepared, is_submitting, is_accepted,
}
use context_rollover_guard.Redemption.{
  Refusal, Snapshot, Receipt, Approval, prepare, check_submit, claim, put_receipt, cancel, verify,
  reads_back,
}

-- The rows, the claims whose adapter call is still to come, and the adapter calls made so far.
pub record World : Type 0 where
  pub rows : List Intent
  pub claimed : List String
  pub calls : List String

-- One atomic action of some process. `dispatch` is the call `adapter.submit`, `die` its omission.
pub data Step (w : World) : World → Type 0 where
  prepares :
      (blank : String → Bool) (hash : Payload → String) (p : Payload) (rows : List Intent)
      → prepare blank hash p w.rows ≡ ok rows
      → Step w (record w { rows = rows })
  claims :
      (id account : String) (rows : List Intent)
      → claim id account w.rows ≡ ok (rows, true)
      → (i : Intent) → find id w.rows ≡ some i
      → i.payload.account ≡ account
      → Step w (record w { rows = rows; claimed = id ∷ w.claimed })
  loses :
      (id account : String) (rows : List Intent)
      → claim id account w.rows ≡ ok (rows, false)
      → Step w (record w { rows = rows })
  dispatch :
      (before after : List String) (id : String)
      → w.claimed ≡ before ++ id ∷ after
      → Step w (record w { claimed = before ++ after; calls = id ∷ w.calls })
  die :
      (before after : List String) (id : String)
      → w.claimed ≡ before ++ id ∷ after
      → Step w (record w { claimed = before ++ after })
  receives :
      (id : String) (r : Receipt) (rows : List Intent)
      → put_receipt id r w.rows ≡ ok rows
      → Step w (record w { rows = rows })
  verifies : (id : String) → Step w (record w { rows = verify id w.rows })
  cancels : (id : String) → Step w (record w { rows = cancel id w.rows })

pub data Reach (w : World) : World → Type 0 where
  here : Reach w w
  next : {u v : World} → Reach w u → Step u v → Reach w v

-- What the adapter gives in one `submit` or `reconcile`.
pub record Adapter : Type 0 where
  pub contract : String
  pub before : Option Snapshot
  pub receipt : Option Receipt
  -- `lookup`: raises, or finds nothing, or a receipt
  pub lookup : Option (Option Receipt)
  pub after : Option Snapshot

-- The end of `reconcile`: the confirmation of an accepted intent.
unfoldable pub confirm : String → Adapter → Intent → World → World
confirm id adapter i w =
    if is_accepted i.status
    then elim adapter.after [
      | none ↦ w
      | some s ↦ if reads_back id i s then record w { rows = verify id w.rows } else w
    ]
    else w

unfoldable pub confirm_found : String → Adapter → World → World
confirm_found id adapter w = elim (find id w.rows) [ none ↦ w | some i ↦ confirm id adapter i w ]

unfoldable pub settle : String → Adapter → Result Refusal (List Intent) → World → World
settle id adapter (err e) w = w
settle id adapter (ok rows) w = confirm_found id adapter (record w { rows = rows })

-- The keyed lookup of a submitting intent.
unfoldable pub look_up : String → Adapter → World → World
look_up id adapter w = elim adapter.lookup [
  | none ↦ w
  | some found ↦ elim found [ none ↦ w | some r ↦ settle id adapter (put_receipt id r w.rows) w ]
]

unfoldable pub reconcile_row : String → Adapter → Intent → World → World
reconcile_row id adapter i w =
    if str_eq adapter.contract i.payload.contract
    then (if is_submitting i.status then look_up id adapter w else confirm id adapter i w)
    else w

-- The effect of `reconcile` on the world; its result is the row read at the end.
unfoldable pub reconcile : String → Adapter → World → World
reconcile id adapter w = elim (find id w.rows) [ none ↦ w | some i ↦ reconcile_row id adapter i w ]

-- The adapter call of a `submit` that has made its claim, and what follows it.
unfoldable pub dispatched : String → Adapter → World → World
dispatched id adapter w = elim adapter.receipt [
  | none ↦ record w { calls = id ∷ w.calls }
  | some r ↦ elim (put_receipt id r w.rows) [
    | err e ↦ record w { calls = id ∷ w.calls }
    | ok rows ↦ reconcile id adapter (record w { rows = rows; calls = id ∷ w.calls })
  ]
]

unfoldable pub claim_and_dispatch :
    String → Adapter → Result Refusal (List Intent × Bool) → World → World
claim_and_dispatch id adapter (err e) w = w
claim_and_dispatch id adapter (ok (rows, true)) w = dispatched id adapter (record w { rows = rows })
claim_and_dispatch id adapter (ok (rows, false)) w = record w { rows = rows }

unfoldable pub submit_row : String → Approval → Adapter → Intent → World → World
submit_row id a adapter i w =
    if is_prepared i.status
    then elim adapter.before [
      | none ↦ w
      | some s ↦ elim (check_submit a adapter.contract s i) [
        | err e ↦ w
        | ok passed ↦ claim_and_dispatch id adapter (claim id i.payload.account w.rows) w
      ]
    ]
    else w

-- The effect of `submit` on the world.
unfoldable pub submit : String → Approval → Adapter → World → World
submit id a adapter w = elim (find id w.rows) [ none ↦ w | some i ↦ submit_row id a adapter i w ]
