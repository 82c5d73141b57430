-- ===== src/Rollover/Run.antt =====
-- `Coordinator.run` (crg/coordinator.py). Every effect has its fate in `Env`: a write may fail, or
-- the process may die, before or after the file is durable, and a request may be answered, or raise
-- or die after or before it was sent. A write of the journal is reached only where the read before
-- it found no such record. The best-effort event log is left out.
use context_rollover_guard.Prelude.{
  String, Bool, true, false, Option, none, some, ◌&&◌, Result, ok, err, if◌then◌else◌,
}
use context_rollover_guard.Json.{Json, bool, member, Members}
use context_rollover_guard.Errors.{Exc, transaction_error, client_error}
use context_rollover_guard.Session.{Platform}
use context_rollover_guard.Settings.{thread_params, turn_params}
use context_rollover_guard.Continuity.{Activity, quiet_point}
use context_rollover_guard.Rollover.Effects.{
  M, Answer, returns, leaves, raises, stops, ◌>>=◌, ◌>>◌, pure, leave, lift, write, call, mark,
  Fate, Reply, Operation, at_start, at_settings, at_forward, at_archive, Report, blocked, finished,
  Accepted, Outcome, thread_start, turn_start, thread_archive,
}
use context_rollover_guard.Rollover.Checks.{
  Site, Context, context, check_thread, is_settings_failure, receipt_of, receipt_matches,
}

pub record Env : Type 0 where
  -- the verdicts of `client.schema.validate`
  pub schema_start : Bool
  pub schema_turn : Bool
  pub start_intent_write : Fate
  pub start_reply : Reply Members
  pub started_write : Fate
  pub forward_intent_write : Fate
  pub turn_reply : Reply Members
  pub accepted_write : Fate
  -- what `read_activity` gave
  pub activity : Option Activity
  pub archive_intent_write : Fate
  pub archive_reply : Reply Members
  pub archived_write : Fate
  pub committed_write : Fate
  pub blocked_write : Fate

-- _blocked
unfoldable pub block {ℓ} : {A : Type ℓ} → Env → Operation → M A
block env op = do
  write env.blocked_write (λ j. record j { recoveries = mark op j.recoveries })
  leave (blocked op)

unfoldable pub handle {ℓ} : {A : Type ℓ} → Env → Operation → Answer A → M A
handle env op (raises e) w = block env op w
handle env op (returns a) w = (returns a, w)
handle env op (leaves r) w = (leaves r, w)
handle env op stops w = (stops, w)

-- `try: … except Exception: return self._blocked(directory, op)`
unfoldable pub guarded {ℓ} : {A : Type ℓ} → Env → Operation → M A → M A
guarded env op m w = let (answer, w') = m w in handle env op answer w'

abbrev pub raise_unless : Bool → Exc → M (Unit {0})
raise_unless true e w = (returns tt, w)
raise_unless false e w = (raises e, w)

module _ (p : Platform) (site : Site) (env : Env) (c : Context) where
  abbrev pub handoff_index : String
  handoff_index = p.child_path c.prepared.archive "handoff.json"

  unfoldable pub start_request : Members → M Members
  start_request params = do
    response ← call (thread_start params) env.start_reply
    write env.started_write (λ j. record j { started = some response })
    pure response

  unfoldable pub begin_thread : M Members
  begin_thread = do
    params ← lift (thread_params p c.prepared.settings (some handoff_index))
    let sent = member "ephemeral" (bool false) params
    raise_unless env.schema_start client_error
    write env.start_intent_write (λ j. record j { start_intent = some (site.params_sha sent) })
    guarded env at_start (start_request sent)

  unfoldable pub ensure_started : M Members
  ensure_started w = elim w.journal.started [
    | some response ↦ (returns response, w)
    | none ↦ elim w.journal.start_intent [
      | some intent ↦ block env at_start w
      | none ↦ begin_thread w
    ]
  ]

  unfoldable pub settle : Result Exc Json → M Json
  settle (ok new) w = (returns new, w)
  settle (err e) w = elim (is_settings_failure e) [
    | true ↦ block env at_settings w
    | false ↦ (raises e, w)
  ]

  unfoldable pub checked_thread : Members → M Json
  checked_thread response = settle (check_thread p c response)

  unfoldable pub turn_request : Json → Members → M Accepted
  turn_request new params = do
    response ← call (turn_start params) env.turn_reply
    accepted ← lift (receipt_of c new response)
    write env.accepted_write (λ j. record j { accepted = some accepted })
    pure accepted

  unfoldable pub begin_turn : Json → M Accepted
  begin_turn new = do
    params ← lift (turn_params c.prepared.settings new c.prompt c.prepared.client_message_id)
    raise_unless env.schema_turn client_error
    write env.forward_intent_write (λ j. record j {
      forward_intent = some (record {
        new_thread_id = new;
        client_message_id = c.prepared.client_message_id;
        prompt_sha256 = c.prepared.prompt_sha256;
      });
    })
    guarded env at_forward (turn_request new params)

  unfoldable pub ensure_accepted : Json → M Accepted
  ensure_accepted new w = elim w.journal.accepted [
    | some accepted ↦ (returns accepted, w)
    | none ↦ elim w.journal.forward_intent [
      | some intent ↦ block env at_forward w
      | none ↦ begin_turn new w
    ]
  ]

  unfoldable pub outcome : Json → Accepted → Bool → Option String → Outcome
  outcome new accepted archived reason = record {
    rollover_id = site.rid;
    old_thread_id = c.prepared.source.thread_id;
    new_thread_id = new;
    accepted_turn_id = accepted.turn_id;
    old_thread_archived = archived;
    source_retention_reason = reason;
    handoff_index = handoff_index;
  }

  unfoldable pub commit : Outcome → M Report
  commit result = do
    write env.committed_write (λ j. record j { committed = some result })
    pure (finished result)

  unfoldable pub archive_request : M (Unit {0})
  archive_request = do
    response ← call (thread_archive c.prepared.source.thread_id) env.archive_reply
    write env.archived_write (λ j. record j { archived = some c.prepared.source.thread_id })

  abbrev pub archive_allowed : Bool
  archive_allowed =
      site.archive_source && elim c.prepared.archive_source [ none ↦ false | some b ↦ b ]

  abbrev pub retention_reason : Option String
  retention_reason =
      some (if archive_allowed then "QUIET_POINT_UNVERIFIED" else "ARCHIVAL_DISABLED")

  unfoldable pub begin_archive : Json → Accepted → M Report
  begin_archive new accepted = do
    write env.archive_intent_write (λ j. record j {
      archive_intent = some (record {
        old_thread_id = c.prepared.source.thread_id;
        accepted_turn_id = accepted.turn_id;
      });
    })
    guarded env at_archive archive_request
    commit (outcome new accepted true none)

  unfoldable pub finish : Json → Accepted → M Report
  finish new accepted w = elim w.journal.archived [
    | some old ↦ commit (outcome new accepted true none) w
    | none ↦ elim w.journal.archive_intent [
      | some intent ↦ block env at_archive w
      | none ↦ elim (archive_allowed && quiet_point env.activity c.prepared.source.thread_id) [
        | false ↦ commit (outcome new accepted false retention_reason) w
        | true ↦ begin_archive new accepted w
      ]
    ]
  ]

  -- The stages of a run, the last first.
  unfoldable pub from_receipt : Json → Accepted → M Report
  from_receipt new accepted = do
    raise_unless (receipt_matches c new accepted) transaction_error
    finish new accepted

  unfoldable pub from_thread : Json → M Report
  from_thread new = ensure_accepted new >>= from_receipt new

  unfoldable pub from_response : Members → M Report
  from_response response = checked_thread response >>= from_thread

  unfoldable pub stages : M Report
  stages = ensure_started >>= from_response

-- `run` inside its lock
unfoldable pub run_in : Platform → Site → Env → Result Exc Context → M Report
run_in p site env (err e) w = (raises e, w)
run_in p site env (ok c) w = elim w.journal.committed [
  | some result ↦ (leaves (finished result), w)
  | none ↦ stages p site env c w
]

unfoldable pub run : Platform → Site → Env → M Report
run p site env w = run_in p site env (context p site w.journal) w
