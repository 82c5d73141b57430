-- ===== src/Tests/Rollover.antt =====
-- One rollover from its preparation to its commit, a run that dies, and its reconciliation.
use context_rollover_guard.Rollover.Evidence.{reconcile_forward-Supported, Supported}
use context_rollover_guard.Rollover.Naming.{Names}
use context_rollover_guard.Rollover.History.{
  history-in_order, history-at_most_once, asks, history, runs, Action, fresh,
}
use context_rollover_guard.Rollover.Run.{outcome, run, Env}
use context_rollover_guard.Rollover.Outcomes.{run-completes, run-pending, Undisturbed}
use context_rollover_guard.Rollover.Invariant.{is_archive, flag, is_start, is_turn, times}
use context_rollover_guard.Settings.{
  from_start, verify_new_thread, read_only, turn_params, thread_params, Settings,
}
use context_rollover_guard.Rollover.Kept.{run-Extends}
use context_rollover_guard.Rollover.Records.{Extends}
use context_rollover_guard.Rollover.Checks.{
  receipt_matches, receipt_of, thread_id_of, check_thread, Site, Context, context,
}
use context_rollover_guard.Rollover.Reconcile.{
  in_items, matches, judge, record_receipt, read_back, reconcile_in, with_context,
  reconcile_forward, Thread, status_of,
}
use context_rollover_guard.Json.{
  bool, get, same, cons, nil, arr, obj, null, end, str, member, Members,
}
use context_rollover_guard.Rollover.Effects.{
  thread_archive, Reply, finished, returns, World, write, call, thread_start, turn_start, replies,
  cut, written, Outcome, Prepared, Accepted,
}
use context_rollover_guard.Continuity.{quiet_point, entry, Activity}
use context_rollover_guard.Prelude.{
  All, ◌≤◌, ◌≡◌, refl, inl, inr, true, false, none, some, List, [], ◌∷◌, ok, arith,
}
use context_rollover_guard.Session.{validate}
use context_rollover_guard.Tests.Session.{small, session}

abbrev pub settings : Settings
settings = record {
  cwd = "/w";
  model = str "m";
  model_provider = str "p";
  approval_policy = str "never";
  approvals_reviewer = null;
  sandbox = read_only;
  service_tier = null;
  reasoning_effort = null;
  runtime_workspace_roots = null;
  active_permission_profile = null;
  developer_config_sha256 = none;
}

abbrev plan : Prepared
plan = record {
  source = session;
  settings = settings;
  archive = "crg_1";
  prompt_sha256 = "hello";
  client_message_id = "crg_1";
  archive_source = some true;
}

abbrev pub place : Site
place = record {
  rid = "crg_1";
  workspace = "/w";
  claim = λ w t. some "crg_1";
  archive = λ path. ok (record { text = "hello"; old_thread_id = "old" });
  archive_source = true;
  params_sha = λ m. "params";
}

abbrev started_response : Members
started_response =
    member "thread"
      (obj (member "id" (str "new") (member "turns" (arr nil) (member "cwd" (str "/w") end))))
      (member "cwd" (str "/w") (
        member "model" (str "m") (
          member "modelProvider" (str "p") (
            member "approvalPolicy" (str "never")
              (member "approvalsReviewer" null (member "sandbox" read_only end))))))

abbrev turn_response : Members
turn_response =
    member "turn" (obj (member "id" (str "turn-1") (member "status" (str "inProgress") end))) end

abbrev idle_thread : Activity
idle_thread = record {
  thread_id = some "old";
  complete = true;
  turn_state = some "completed";
  tools = some [];
  children = some (entry (some "detached") ∷ []);
}

abbrev pub smooth : Env
smooth = record {
  schema_start = true;
  schema_turn = true;
  start_intent_write = written;
  start_reply = replies started_response;
  started_write = written;
  forward_intent_write = written;
  turn_reply = replies turn_response;
  accepted_write = written;
  activity = some idle_thread;
  archive_intent_write = written;
  archive_reply = replies end;
  archived_write = written;
  committed_write = written;
  blocked_write = written;
}

abbrev plan_context : Context
plan_context = record { prepared = plan; prompt = "hello" }

abbrev first_receipt : Accepted
first_receipt = record {
  thread_id = str "new";
  turn_id = "turn-1";
  client_message_id = "crg_1";
  prompt_sha256 = "hello";
  source = "turn/start response";
}

smooth-Undisturbed : Undisturbed smooth started_response turn_response end
smooth-Undisturbed = record {
  schema_start_ok = refl;
  schema_turn_ok = refl;
  start_intent_ok = refl;
  start_ok = refl;
  started_ok = refl;
  forward_intent_ok = refl;
  turn_ok = refl;
  accepted_ok = refl;
  archive_intent_ok = refl;
  archive_ok = refl;
  archived_ok = refl;
  committed_ok = refl;
}

abbrev start_params : Members
start_params = member "cwd" (str "/w") (
    member "model" (str "m") (
      member "modelProvider" (str "p") (
        member "approvalPolicy" (str "never") (
          member "approvalsReviewer" null
            (member "serviceTier" null (member "sandbox" (str "read-only") end))))))

abbrev turn_parameters : Members
turn_parameters = member "threadId" (str "new") (
    member "input"
      (arr (cons (obj (member "type" (str "text") (member "text" (str "hello") end))) nil))
      (member "clientUserMessageId" (str "crg_1") (
        member "cwd" (str "/w") (
          member "model" (str "m") (
            member "approvalPolicy" (str "never") (
              member "approvalsReviewer" null
                (member "serviceTier" null (member "sandboxPolicy" read_only end))))))))

abbrev final_outcome : Outcome
final_outcome = record {
  rollover_id = "crg_1";
  old_thread_id = "old";
  new_thread_id = str "new";
  accepted_turn_id = "turn-1";
  old_thread_archived = true;
  source_retention_reason = none;
  handoff_index = "handoff.json";
}

run-completes_example :
    ((run small place smooth (fresh plan)).0 ≡ returns (finished final_outcome))
    × ((run small place smooth (fresh plan)).1.journal.committed ≡ some final_outcome)
    × ((run small place smooth (fresh plan)).1.sent
        ≡ thread_archive "old"
          ∷ turn_start turn_parameters
          ∷ thread_start (member "ephemeral" (bool false) start_params)
          ∷ [])
unfolding context validate thread_params turn_params check_thread verify_new_thread from_start
    thread_id_of receipt_of receipt_matches same get outcome quiet_point
run-completes_example =
    run-completes small place smooth plan_context smooth-Undisturbed refl refl refl refl refl
      (fresh plan) refl (refl, refl, refl, refl, refl, refl, refl)

-- The process dies after the prompt was sent.
abbrev cut_short : Env
cut_short = record smooth { turn_reply = cut }

abbrev eventful : List (Site × Action)
eventful = (place, runs cut_short) ∷ (place, runs smooth) ∷ (place, asks) ∷ []

history-at_most_once_example :
    (times is_start (history small (fresh plan) eventful).sent ≤ 1)
    × (times is_turn (history small (fresh plan) eventful).sent ≤ 1)
    × (times is_archive (history small (fresh plan) eventful).sent ≤ 1)
history-at_most_once_example = history-at_most_once small plan eventful

history-in_order_example :
    All
      (Names plan (history small (fresh plan) eventful).journal.started)
      (history small (fresh plan) eventful).sent
    × (times is_turn (history small (fresh plan) eventful).sent
        ≤ flag (history small (fresh plan) eventful).journal.started)
    × (times is_archive (history small (fresh plan) eventful).sent
        ≤ flag (history small (fresh plan) eventful).journal.accepted)
    × (flag (history small (fresh plan) eventful).journal.committed
        ≤ flag (history small (fresh plan) eventful).journal.accepted)
history-in_order_example = history-in_order small plan eventful

run-Extends_example :
    Extends (fresh plan).journal (run small place cut_short (fresh plan)).1.journal
run-Extends_example = run-Extends small place cut_short (fresh plan)

-- The journal that the death leaves: the intent to forward, and no receipt.
abbrev interrupted : World
interrupted = record {
  journal = record (fresh plan).journal {
    start_intent = some "params";
    started = some started_response;
    forward_intent = some (record {
      new_thread_id = str "new";
      client_message_id = "crg_1";
      prompt_sha256 = "hello";
    });
  };
  sent = turn_start turn_parameters ∷ thread_start start_params ∷ [];
}

run-pending_example : (run small place smooth interrupted).1.sent ≡ interrupted.sent
unfolding status_of
run-pending_example = run-pending small place smooth interrupted (omega arith) (inr (inl refl))

abbrev read_thread : Thread
read_thread = record {
  id = str "new";
  cwd = "/w";
  turns =
      record {
        id = some "turn-1";
        status = some "completed";
        items =
            record {
              kind = some "userMessage";
              client_id = some "crg_1";
              content = record { kind = some "text"; text = some "hello"; known_keys = true } ∷ [];
            }
            ∷ [];
      }
      ∷ [];
}

abbrev found_receipt : Accepted
found_receipt = record first_receipt { source = "positive thread/read reconciliation" }

reconcile_forward-Supported_example :
    (c : Context) × (native : Thread) × (context small place interrupted.journal ≡ ok c)
    × (◌≡◌ {A = Reply Thread} (replies read_thread) (replies native))
    × Supported c native.turns found_receipt
unfolding reconcile_forward with_context context validate reconcile_in read_back verify_new_thread
    from_start thread_id_of same get call write record_receipt judge matches in_items
reconcile_forward-Supported_example =
    reconcile_forward-Supported small place (replies read_thread) written interrupted found_receipt
      refl refl
