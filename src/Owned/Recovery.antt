-- ===== src/Owned/Recovery.antt =====
-- `reconcile_run` (crg/owned_recovery.py): the completion of the last input of a run is recorded
-- where the native readback and the native Stop both show it. It only reads from the client.
use context_rollover_guard.Owned.Events.{turn_item}
use context_rollover_guard.Settings.{item}
use context_rollover_guard.Owned.Walk.{load_dict}
use context_rollover_guard.Rollover.Checks.{members_of}
use context_rollover_guard.Errors.{value_error, Exc}
use context_rollover_guard.Owned.Files.{
  exists, find, Files, source, completed, route, intent, accepted, transaction, input,
}
use context_rollover_guard.Prelude.{
  ℕ, suc, Bool, true, false, ◌&&◌, not, Option, none, some, List, [], ◌∷◌, ◌==◌, if◌then◌else◌,
  Result, ok, ◌>>=◌, ◌>>◌, raise_if,
}
use context_rollover_guard.Json.{Json, Members, null, str, arr, obj, nil, cons, end, member, same}

pub data Reason : Type 0 where
  transaction_unreconciled invalid_completion unfinished_not_last no_submission_intent : Reason
  acceptance_absent_or_duplicated content_mismatch accepted_turn_mismatch : Reason
  turn_not_completed native_stop_unavailable final_answer_mismatch : Reason

pub data Verdict : Type 0 where
  blocked : Reason → Verdict
  ready_to_resume : Json → Verdict

-- The unfinished last input, its source record `made`, and what the readback must show for it.
pub record Query : Type 0 where
  pub number : ℕ
  pub thread : Json
  pub made : Members
  pub client_id : Json
  pub accepted_turn : Option Json

pub data Scan : Type 0 where
  settled : Verdict → Scan
  asks : Query → Scan

-- `intent['input'] != [{'type': 'text', 'text': source['text']}]`, negated
abbrev pub input_of : Json → Json
input_of text = arr (cons (obj (member "type" (str "text") (member "text" text end))) nil)

abbrev pub accepted_turn_of : Json → Option Json → Result Exc (Option Json)
accepted_turn_of thread none = ok none
accepted_turn_of thread (some v) = do
  receipt ← members_of v
  at ← item "thread_id" receipt
  raise_if (not (same at thread)) value_error
  turn ← item "turn_id" receipt
  ok (some turn)

-- An input sent on the thread itself.
unfoldable pub direct_query : Files → ℕ → Json → Members → Result Exc Scan
direct_query fs n thread made =
    if not (exists (input n intent) fs) then ok (settled (blocked no_submission_intent)) else (do
      sent ← load_dict (input n intent) fs
      at ← item "threadId" sent
      raise_if (not (same at thread)) value_error
      given ← item "input" sent
      text ← item "text" made
      raise_if (not (same given (input_of text))) value_error
      id ← item "clientUserMessageId" sent
      turn ← accepted_turn_of thread (find (input n accepted) fs)
      ok (
          asks (record {
            number = n;
            thread = thread;
            made = made;
            client_id = id;
            accepted_turn = turn;
          })))

-- An input sent by a rollover, with the result of its run.
unfoldable pub rollover_query : Files → ℕ → Json → Members → Option Json → Result Exc Scan
rollover_query fs n thread made none = ok (settled (blocked transaction_unreconciled))
rollover_query fs n thread made (some v) = do
  kept ← load_dict (input n transaction) fs
  rid ← item "rollover_id" kept
  result ← members_of v
  turn ← item "accepted_turn_id" result
  ok (
      asks (record {
        number = n;
        thread = thread;
        made = made;
        client_id = rid;
        accepted_turn = some turn;
      }))

unfoldable pub open_input : Files → ℕ → Json → Members → Result Exc Scan
open_input fs n thread made =
    if exists (input n transaction) fs
    then rollover_query fs n thread made (find (input n route) fs)
    else direct_query fs n thread made

-- The thread after a route: `none` where the route does not continue the thread.
abbrev route_thread : Json → Json → Result Exc (Option Json)
route_thread thread v = do
  r ← members_of v
  state ← item "state" r
  old ← (if same state (str "NORMAL") then item "old_thread_id" r else ok null)
  if same state (str "NORMAL") && same old thread
      then (item "new_thread_id" r >>= λ new. ok (some new))
      else ok none

unfoldable pub thread_after : Json → Option Json → Result Exc (Option Json)
thread_after thread none = ok (some thread)
thread_after thread (some v) = route_thread thread v

-- A completion receipt is of the thread, and of a completed turn.
unfoldable pub receipt_holds : Json → Json → Result Exc Bool
receipt_holds thread v = do
  receipt ← members_of v
  at ← item "threadId" receipt
  if same at thread
      then (turn_item "status" receipt >>= λ status. ok (same status (str "completed")))
      else ok false

abbrev pub is_last : List ℕ → Bool
is_last [] = true
is_last _ = false

-- An input on its thread: a receipt that does not hold blocks; without one the input is open.
unfoldable pub on_input : Files → ℕ → Json → Members → Bool → Result Exc Scan → Result Exc Scan
on_input fs n thread made last rest = elim (find (input n completed) fs) [
  | some v ↦ (do
    holds ← receipt_holds thread v
    if holds then rest else ok (settled (blocked invalid_completion)))
  | none ↦ if last then open_input fs n thread made else ok (settled (blocked unfinished_not_last))
]

-- `source = read(key)`, of an input that was made on the thread
unfoldable pub source_of : Files → ℕ → Json → Result Exc Members
source_of fs n thread = do
  made ← load_dict (input n source) fs
  at ← item "thread_id" made
  raise_if (not (same at thread)) value_error
  ok made

unfoldable pub scan : Files → ℕ → Json → List ℕ → Result Exc Scan
scan fs index thread [] = ok (settled (ready_to_resume thread))
scan fs index thread (n ∷ ns) = do
  raise_if (not (n == index)) value_error
  made ← source_of fs n thread
  after ← thread_after thread (find (input n route) fs)
  elim after [
    | none ↦ ok (settled (blocked transaction_unreconciled))
    | some new ↦ on_input fs n new made (is_last ns) (scan fs (suc index) new ns)
  ]
