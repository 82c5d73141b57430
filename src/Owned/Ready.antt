-- ===== src/Owned/Ready.antt =====
-- The effects of `reconcile_run`, and the run that it leaves.
use context_rollover_guard.Owned.Kept.{Grows}
use context_rollover_guard.Settings.{item}
use context_rollover_guard.Owned.Files.{Name, find, Files, completed, reconciled, input}
use context_rollover_guard.Owned.Evidence.{Confirmed}
use context_rollover_guard.Owned.Reconcile.{first_scan, Desk, RecoveryEnv}
use context_rollover_guard.Owned.Answer.{Host}
use context_rollover_guard.Owned.Recovery.{Query, asks}
use context_rollover_guard.Rollover.Effects.{thread_read, replies}
use context_rollover_guard.Owned.Reconciled.{provenance, completion}
use context_rollover_guard.Prelude.{some, ◌≡◌, ◌⊎◌, ◌∷◌, ok}
use context_rollover_guard.Json.{Json, Members}

-- Where a record of the run comes from: it was there, or it is one of the two records of a turn.
pub data IsFrom (q : Query) (turn : Members) (fs : Files) : Name → Json → Type 0 where
  was_there : {n : Name} {v : Json} → find n fs ≡ some v → IsFrom q turn fs n v
  of_turn : IsFrom q turn fs (input q.number completed) (completion q.thread turn)
  of_readback :
      (id : Json)
      → item "id" turn ≡ ok id
      → IsFrom q turn fs (input q.number reconciled) (provenance id)

-- The second directory is the first with at most the two records of a turn.
pub record Adds (q : Query) (turn : Members) (fs fs' : Files) : Type 0 where
  pub kept : Grows fs fs'
  pub sourced : (n : Name) (v : Json) → find n fs' ≡ some v → IsFrom q turn fs n v

-- What the call may change: it sends at most the thread/read of the open input, and it writes where
-- the response to it confirms that input's completion only, the two records of the completed turn.
abbrev pub Careful : Host → RecoveryEnv → Desk → Desk → Type 0
Careful t env d d' =
    ((d'.files ≡ d.files) × (d'.sent ≡ d.sent))
    ⊎ ((q : Query) × (first_scan t env d.files ≡ ok (asks q))
        × (d'.sent ≡ thread_read q.thread ∷ d.sent)
        × ((d'.files ≡ d.files)
            ⊎ ((response turn : Members) × (env.reply ≡ replies response)
                × Confirmed t env.stores q response turn
                × Adds q turn d.files d'.files)))
