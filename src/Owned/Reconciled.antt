-- ===== src/Owned/Reconciled.antt =====
-- The effects of `reconcile_run` (crg/owned_recovery.py): one thread/read, and the two records of a
-- completion that every test confirms.
use context_rollover_guard.Errors.{client_error}
use context_rollover_guard.Settings.{item}
use context_rollover_guard.Owned.Reconcile.{verdict_of, first_scan, RecoveryEnv, Desk}
use context_rollover_guard.Owned.Answer.{Host}
use context_rollover_guard.Owned.Files.{
  stops, raises, pure, install, Files, returns, lift, Name, M, Answer, ◌>>=◌, ◌>>◌, completed,
  reconciled, input,
}
use context_rollover_guard.Owned.Recovery.{
  Query, Scan, blocked, ready_to_resume, settled, asks, Verdict, Reason,
}
use context_rollover_guard.Rollover.Effects.{thread_read, Fate, Reply, lost, unsent, cut, replies}
use context_rollover_guard.Prelude.{◌∷◌, Result, ok, err}
use context_rollover_guard.Json.{Json, Members, str, obj, end, member}

unfoldable pub read_thread : Json → Reply Members → M Desk Members
read_thread thread reply d = elim reply [
  | replies response ↦ (returns response, record d { sent = thread_read thread ∷ d.sent })
  | lost ↦ (raises client_error, record d { sent = thread_read thread ∷ d.sent })
  | unsent ↦ (raises client_error, d)
  | cut ↦ (stops, record d { sent = thread_read thread ∷ d.sent })
]

abbrev desk_with : Desk → Answer (Unit {0}) × Files → Answer (Unit {0}) × Desk
desk_with d (a, fs) = (a, record d { files = fs })

unfoldable pub keep_record : Host → Fate → Name → Json → M Desk (Unit {0})
keep_record t fate n v d = desk_with d (install t.codec fate n v d.files)

unfoldable pub completion : Json → Members → Json
completion thread turn = obj (member "threadId" thread (member "turn" (obj turn) end))

unfoldable pub provenance : Json → Json
provenance id =
    obj (member "source" (str "positive thread/read and native Stop") (member "turn_id" id end))

unfoldable pub conclude : Host → RecoveryEnv → Query → Result Reason Members → M Desk Verdict
conclude t env q (err reason) = pure (blocked reason)
conclude t env q (ok turn) = do
  keep_record t env.completed_write (input q.number completed) (completion q.thread turn)
  id ← lift (item "id" turn)
  keep_record t env.reconciled_write (input q.number reconciled) (provenance id)
  pure (ready_to_resume q.thread)

unfoldable pub on_scan : Host → RecoveryEnv → Scan → M Desk Verdict
on_scan t env (settled v) = pure v
on_scan t env (asks q) = do
  response ← read_thread q.thread env.reply
  judged ← lift (verdict_of t env.stores q response)
  conclude t env q judged

unfoldable pub reconcile_run : Host → RecoveryEnv → M Desk Verdict
reconcile_run t env d = (lift (first_scan t env d.files) >>= on_scan t env) d
