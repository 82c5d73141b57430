-- ===== src/Tests/Owned.antt =====
-- An owned run whose last input is confirmed by a reconciliation, and its files afterwards.
use context_rollover_guard.Errors.{value_error}
use context_rollover_guard.StateStore.Codec.{
  decode, decode_document, decode_payload, known_fields, migrated, named_mode, named_state,
  payload_of, state_from, unique,
}
use context_rollover_guard.Owned.Readback.{
  all_submissions, dicts, final_texts, has_text, known_keys, only_text, submissions,
}
use context_rollover_guard.Owned.Events.{turn_item}
use context_rollover_guard.Owned.Walk.{last_stop, numbers, place}
use context_rollover_guard.Rollover.Checks.{thread_id_of}
use context_rollover_guard.Session.{validate, within_unit, workspace_id_of, SessionState}
use context_rollover_guard.Owned.Reconcile.{
  first_scan, verdict_of, judge, judge_final, judge_match, judge_status, judge_stop, native_turns,
  RecoveryEnv, Desk,
}
use context_rollover_guard.Owned.Reconciled.{
  on_scan, read_thread, conclude, keep_record, completion, provenance, reconcile_run,
}
use context_rollover_guard.Owned.Answer.{
  answer_text, guard_of, pending_answer, read_text, stopped_at, stored_state, Host, Stores,
}
use context_rollover_guard.Owned.Resumed.{reconcile_run-Resumes, Resumes}
use context_rollover_guard.Session.Dict.{dict_of}
use context_rollover_guard.Owned.Files.{
  find, same_name, install, outcome, started, source, intent, accepted, completed, reconciled,
  input, returns, Files,
}
use context_rollover_guard.Owned.Recovery.{
  scan, source_of, thread_after, on_input, open_input, direct_query, receipt_holds, rollover_query,
  ready_to_resume,
}
use context_rollover_guard.Rollover.Effects.{replies, written, thread_read}
use context_rollover_guard.StateStore.Store.{decode_own, load, load_backup, read, bytes, absent}
use context_rollover_guard.Tests.Session.{small, session}
use context_rollover_guard.Prelude.Int.{pos}
use context_rollover_guard.Prelude.{err, ◌≡◌, refl, true, false, some, [], ◌∷◌, ok}
use context_rollover_guard.Json.{
  put, Json, Members, int, str, arr, obj, nil, cons, end, member, get, same,
}

abbrev pub stopped_state : SessionState
stopped_state = record session {
  session_id = "th";
  thread_id = "th";
  last_turn_id = some "t1";
  pending_answer_path = some "/a";
  telemetry =
      member "guard"
        (obj (
          member "pending_answer"
            (obj (
              member "turn_id" (str "t1")
                (member "path" (str "/a") (member "sha256" (str "bye") end))))
            end))
        end;
}

abbrev state_document : Json
state_document = obj (
    member "format_version" (int (pos 1))
      (member "payload" (obj (dict_of stopped_state)) (member "sha256" (str "p") end)))

abbrev pub host : Host
host = record {
  platform = small;
  codec = record { parse = λ raw. some state_document; print = λ v. "p" };
  workspace = "/w";
  run_name = "run";
  six_digits = λ n. "n";
  read_private = λ path. ok "bye";
  decode = λ bytes. some bytes;
}

abbrev pub stores : Stores
stores = record {
  disk =
      λ thread. record { primary = bytes "st"; backup = absent; leftover = false; quarantine = [] };
  now = "now";
}

abbrev text_part : Json
text_part = obj (member "type" (str "text") (member "text" (str "hi") end))

abbrev run_files : Files
run_files =
    (input 1 accepted, obj (member "thread_id" (str "th") (member "turn_id" (str "t1") end)))
    ∷ (
      input 1 intent,
      obj (
          member "threadId" (str "th") (
            member "input" (arr (cons text_part nil))
              (member "clientUserMessageId" (str "c1") end))),
    )
    ∷ (input 1 source, obj (member "thread_id" (str "th") (member "text" (str "hi") end)))
    ∷ (
      started,
      obj (member "cwd" (str "/w") (member "thread" (obj (member "id" (str "th") end)) end)),
    )
    ∷ []

abbrev desk : Desk
desk = record { files = run_files; sent = [] }

abbrev native_turn : Members
native_turn = member "id" (str "t1") (
    member "status" (str "completed") (
      member "items"
        (arr (
          cons
            (obj (
              member "type" (str "userMessage")
                (member "clientId" (str "c1") (member "content" (arr (cons text_part nil)) end))))
            (cons
              (obj (
                member "type" (str "agentMessage")
                  (member "phase" (str "final_answer") (member "text" (str "bye") end))))
              nil)))
        end))

abbrev readback : Members
readback =
    member "thread"
      (obj (
        member "id" (str "th")
          (member "cwd" (str "/w") (member "turns" (arr (cons (obj native_turn) nil)) end))))
      end

abbrev recovery : RecoveryEnv
recovery = record {
  symlinked = false;
  own_run = true;
  stores = stores;
  reply = replies readback;
  completed_write = written;
  reconciled_write = written;
}

abbrev desk_after : Desk
desk_after = record {
  files =
      (input 1 reconciled, provenance (str "t1"))
      ∷ (input 1 completed, completion (str "th") native_turn)
      ∷ run_files;
  sent = thread_read (str "th") ∷ [];
}

run_is_reconciled :
    reconcile_run host recovery desk ≡ (returns (ready_to_resume (str "th")), desk_after)
unfolding reconcile_run first_scan find same_name get same thread_id_of scan numbers place source_of
    thread_after on_input open_input direct_query on_scan read_thread verdict_of put answer_text
    guard_of pending_answer read_text stopped_at stored_state turn_item install outcome
    all_submissions dicts final_texts has_text known_keys only_text submissions judge judge_final
    judge_match judge_status judge_stop native_turns completion conclude keep_record provenance
    receipt_holds rollover_query validate within_unit workspace_id_of decode decode_document
    decode_payload known_fields migrated named_mode named_state payload_of state_from unique
    decode_own load load_backup read dict_of
run_is_reconciled = refl

reconcile_run-Resumes_example : Resumes desk_after.files (str "th")
reconcile_run-Resumes_example =
    reconcile_run-Resumes host recovery desk desk_after (str "th") run_is_reconciled

-- A run whose last native Stop left no state is reported as ready where its completion is recorded,
-- and `resume` refuses it.
abbrev empty_stores : Stores
empty_stores = record {
  disk = λ thread. record { primary = absent; backup = absent; leftover = false; quarantine = [] };
  now = "now";
}

abbrev finished_desk : Desk
finished_desk = record {
  files = (input 1 completed, completion (str "th") native_turn) ∷ run_files;
  sent = [];
}

run_without_stop_is_ready :
    reconcile_run host (record recovery { stores = empty_stores }) finished_desk
    ≡ (returns (ready_to_resume (str "th")), finished_desk)
unfolding reconcile_run first_scan find same_name get same thread_id_of scan numbers place source_of
    thread_after on_input open_input direct_query on_scan read_thread verdict_of put answer_text
    guard_of pending_answer read_text stopped_at stored_state turn_item install outcome
    all_submissions dicts final_texts has_text known_keys only_text submissions judge judge_final
    judge_match judge_status judge_stop native_turns completion conclude keep_record provenance
    receipt_holds rollover_query validate within_unit workspace_id_of decode decode_document
    decode_payload known_fields migrated named_mode named_state payload_of state_from unique
    decode_own load load_backup read dict_of
run_without_stop_is_ready = refl

run_without_stop_is_refused :
    last_stop host empty_stores
      (str "th")
      (some (member "threadId" (str "th") (member "turn" (obj native_turn) end)))
    ≡ err value_error
unfolding last_stop reconcile_run first_scan find same_name get same thread_id_of scan numbers place
    source_of thread_after on_input open_input direct_query on_scan read_thread verdict_of put
    answer_text guard_of pending_answer read_text stopped_at stored_state turn_item install outcome
    all_submissions dicts final_texts has_text known_keys only_text submissions judge judge_final
    judge_match judge_status judge_stop native_turns completion conclude keep_record provenance
    receipt_holds rollover_query validate within_unit workspace_id_of decode decode_document
    decode_payload known_fields migrated named_mode named_state payload_of state_from unique
    decode_own load load_backup read dict_of
run_without_stop_is_refused = refl
