-- ===== src/Owned/Submit.antt =====
-- `OwnedSession.submit` and `complete` (crg/owned_client.py): one prompt, sent on the thread of the
-- session or through a rollover of the coordinator. Every effect has its fate in `SubmitEnv`.
use context_rollover_guard.Owned.Records.{
  route_record, accepted_record, transaction_record, no_journal, source_record,
}
use context_rollover_guard.Owned.Events.{skips, finishes, refuses, forwards, migrates}
use context_rollover_guard.Continuity.{decide}
use context_rollover_guard.Rollover.Checks.{Site, PromptFile}
use context_rollover_guard.Rollover.Run.{Env, run}
use context_rollover_guard.Session.{SessionState}
use context_rollover_guard.Owned.Events.{
  choose, accepted_turn, signals, finished_answer, classify, finishes, Step, migrates, armed_copy,
  Choice, Output, Arrival,
}
use context_rollover_guard.Rollover.Prepare.{source_key, prepare, Office, Registry, lookup}
use context_rollover_guard.Owned.Answer.{stored_state, Host, Stores}
use context_rollover_guard.Errors.{os_error, type_error, value_error, Exc, runtime_error}
use context_rollover_guard.Owned.Session.{
  rolled_over, adopt_thread, answered, call, continuity, emit, block, write, recovery_required, S,
  Session,
}
use context_rollover_guard.Settings.{turn_params, Settings, truthy}
use context_rollover_guard.Owned.Files.{
  accepted, pure, route, transaction, source, completed, intent, input, raise, lift, ◌>>=◌, ◌>>◌,
  returns, raises, stops, Answer,
}
use context_rollover_guard.Rollover.Effects.{
  turn_start, Reply, blocked, Outcome, finished, Journal, Fate, Report, Answer as RunAnswer,
  returns as run_returns, leaves as run_leaves, raises as run_raises, stops as run_stops,
}
use context_rollover_guard.Prelude.{
  ℕ, suc, String, str_append, Bool, true, ◌||◌, not, Option, none, some, List, [], ◌∷◌,
  if◌then◌else◌, Result, ok, err,
}
use context_rollover_guard.Json.{Json, Members, null, str, obj}

pub record SubmitEnv : Type 0 where
  pub source_write : Fate
  pub transaction_write : Fate
  pub route_write : Fate
  pub intent_write : Fate
  pub accepted_write : Fate
  pub completed_write : Fate
  -- the stores of the threads before the turn and after it
  pub before : Stores
  pub after : Stores
  -- what the coordinator finds, and the effects of its run
  pub office : Office
  pub verify : String → Result Exc PromptFile
  pub params_sha : Members → String
  pub run_env : Env
  pub turn_reply : Reply Members
  -- whether an approval handler is configured, and the events before the deadline
  pub has_approver : Bool
  pub arrivals : List Arrival

abbrev kept_journal : Option Journal → Journal
kept_journal none = no_journal
kept_journal (some j) = j

-- The journal of a rollover; its `prepared.json` is in the registry.
unfoldable pub journal_of : String → Session → Journal
journal_of rid s = record (kept_journal (lookup rid s.journals)) {
  prepared = lookup rid s.registry.journals;
}

-- `prepare` never leaves early.
abbrev prepared_answer : RunAnswer String → Answer String
prepared_answer (run_returns rid) = returns rid
prepared_answer (run_leaves report) = raises runtime_error
prepared_answer (run_raises e) = raises e
prepared_answer run_stops = stops

abbrev run_answer : RunAnswer Report → Answer Report
run_answer (run_returns report) = returns report
run_answer (run_leaves report) = returns report
run_answer (run_raises e) = raises e
run_answer run_stops = stops

-- The result of a run that committed.
abbrev pub committed_result : Report → Result Exc Outcome
committed_result (finished o) = ok o
committed_result (blocked op) = err runtime_error

-- `not self.thread`
abbrev pub no_thread : Option Json → Bool
no_thread none = true
no_thread (some thread) = not (truthy thread)

-- f'input-{self.sequence:06d}'
abbrev pub key_text : Host → ℕ → String
key_text t n = str_append "input-" (t.six_digits n)

module _ (t : Host) (env : SubmitEnv) where
  -- coordinator.prepare
  unfoldable pub prepare_rollover : SessionState → String → Settings → S String
  prepare_rollover state prompt settings s =
      let (a, registry) = prepare t.platform env.office state prompt settings s.registry in
      (prepared_answer a, record s { registry = registry })

  unfoldable pub site_of : String → Registry → Site
  site_of rid registry = record {
    rid = rid;
    workspace = t.workspace;
    claim = λ workspace thread. lookup (source_key t.platform workspace thread) registry.claims;
    archive = env.verify;
    archive_source = env.office.archive_source;
    params_sha = env.params_sha;
  }

  -- coordinator.run
  unfoldable pub run_rollover : String → S Report
  run_rollover rid s =
      let (a, w) =
        run t.platform (site_of rid s.registry) env.run_env
          (record { journal = journal_of rid s; sent = s.sent }) in
      (run_answer a, record s { journals = (rid, w.journal) ∷ s.journals; sent = w.sent })

  unfoldable pub migrate : ℕ → Settings → String → SessionState → S Json
  migrate n settings prompt state = do
    rid ← prepare_rollover (armed_copy state) prompt settings
    write t env.transaction_write (input n transaction) (transaction_record rid)
    report ← run_rollover rid
    write t env.route_write (input n route) (route_record rid report)
    o ← lift (committed_result report)
    adopt_thread o.new_thread_id
    emit (rolled_over o)
    pure (str o.accepted_turn_id)

  unfoldable pub forward : ℕ → Settings → String → Json → S Json
  forward n settings prompt thread = do
    params ←
        lift (
          turn_params settings thread prompt
            (str_append t.run_name (str_append "-" (key_text t n))))
    write t env.intent_write (input n intent) (obj params)
    result ← call (turn_start params) env.turn_reply
    turn ← lift (accepted_turn result)
    write t env.accepted_write (input n accepted) (accepted_record thread turn)
    pure turn

  unfoldable pub carry : ℕ → Settings → String → Json → Choice → S Json
  carry n settings prompt thread (migrates state) = migrate n settings prompt state
  carry n settings prompt thread refuses = raise runtime_error
  carry n settings prompt thread forwards = forward n settings prompt thread

  unfoldable pub finish : ℕ → Json → Json → Members → S Output
  finish n thread turn p = do
    write t env.completed_write (input n completed) (obj p)
    output ← lift (finished_answer t env.after thread turn p)
    emit (answered output)
    pure output

  abbrev pub on_step : ℕ → Json → Json → S Output → Step → S Output
  on_step n thread turn rest skips = rest
  on_step n thread turn rest (finishes p) = finish n thread turn p

  -- The loop of `complete`; past the deadline it raises a TimeoutError, which is an OSError.
  unfoldable pub await_turn : ℕ → Json → Json → List Arrival → S Output
  await_turn n thread turn [] = raise os_error
  await_turn n thread turn (a ∷ rest) =
      lift (classify env.has_approver thread turn a)
      >>= on_step n thread turn (await_turn n thread turn rest)

  -- `self.complete(turn, key)`, on the thread that the session has now
  unfoldable pub complete : ℕ → Json → S Output
  complete n turn s = elim s.thread [
    | none ↦ (raises type_error, s)
    | some thread ↦ await_turn n thread turn env.arrivals s
  ]

  -- The part of `submit` under its `try`.
  unfoldable pub attempt : ℕ → Settings → String → Bool → Json → S Output
  attempt n settings prompt fresh thread = do
    state ← lift (stored_state t env.before thread)
    emit (continuity (decide (signals fresh state)))
    turn ← carry n settings prompt thread (choose fresh state)
    complete n turn

  abbrev pub alarm : Answer Output × Session → Answer Output × Session
  alarm (returns output, s) = (returns output, s)
  alarm (raises e, s) = (raises e, record s { emitted = recovery_required ∷ s.emitted })
  alarm (stops, s) = (stops, s)

  -- A session with a thread has settings.
  unfoldable pub protected : ℕ → String → Bool → Option Settings → Option Json → S Output
  protected n prompt fresh (some settings) (some thread) s =
      alarm (block (attempt n settings prompt fresh thread s))
  protected n prompt fresh _ _ s = alarm (block (raises type_error, s))

  abbrev pub thread_or_null : Option Json → Json
  thread_or_null none = null
  thread_or_null (some thread) = thread

  unfoldable pub numbered : String → Bool → S Output
  numbered prompt fresh s =
      (write t env.source_write (input s.sequence source)
            (source_record (thread_or_null s.thread) prompt fresh)
          >> protected s.sequence prompt fresh s.settings s.thread)
        s

  unfoldable pub submit : String → Bool → S Output
  submit prompt fresh s =
      if s.blocked || no_thread s.thread
      then (raises value_error, s)
      else numbered prompt fresh (record s { sequence = suc s.sequence })
