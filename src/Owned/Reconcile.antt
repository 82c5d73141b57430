-- ===== src/Owned/Reconcile.antt =====
-- The readback and the writes of `reconcile_run` (crg/owned_recovery.py).
use context_rollover_guard.Owned.Walk.{numbers, load_dict}
use context_rollover_guard.Owned.Readback.{
  only_text, final_texts, items_in, has_text, list_of, all_submissions, content_of,
}
use context_rollover_guard.Rollover.Checks.{thread_id_of, members_of}
use context_rollover_guard.Settings.{item}
use context_rollover_guard.Owned.Recovery.{
  final_answer_mismatch, scan, accepted_turn_mismatch, content_mismatch, native_stop_unavailable,
  acceptance_absent_or_duplicated, turn_not_completed, Reason, Query, Scan,
}
use context_rollover_guard.Session.{SessionState}
use context_rollover_guard.Rollover.Effects.{Fate, Reply, Request}
use context_rollover_guard.Errors.{value_error, Exc}
use context_rollover_guard.Owned.Files.{started, Files}
use context_rollover_guard.Owned.Answer.{stopped_at, stored_state, answer_text, Host, Stores}
use context_rollover_guard.Prelude.{
  Bool, false, not, Option, none, some, List, [], ◌∷◌, if◌then◌else◌, Result, ok, err, ◌>>=◌, ◌>>◌,
  raise_if,
}
use context_rollover_guard.Json.{Json, Members, str, same}

pub record Desk : Type 0 where
  pub files : Files
  pub sent : List Request

pub record RecoveryEnv : Type 0 where
  -- whether a symbolic link leads to the directory, and whether it is one of this workspace's runs
  pub symlinked : Bool
  pub own_run : Bool
  pub stores : Stores
  pub reply : Reply Members
  pub completed_write : Fate
  pub reconciled_write : Fate

abbrev different_turn : Option Json → Json → Bool
different_turn none turn = false
different_turn (some accepted) turn = not (same turn accepted)

-- The tests of the one match, in order: a reason, or the turn to record.
unfoldable pub judge_final : Host → Members → SessionState → Result Exc (Result Reason Members)
judge_final t turn state = do
  answer ← answer_text t state
  is ← items_in turn
  finals ← final_texts is
  ok (if only_text answer finals then ok turn else err final_answer_mismatch)

unfoldable pub judge_stop :
    Host → Members → Option SessionState → Result Exc (Result Reason Members)
judge_stop t turn none = ok (err native_stop_unavailable)
judge_stop t turn (some state) = do
  id ← item "id" turn
  elim (stopped_at id (some state)) [
    | none ↦ ok (err native_stop_unavailable)
    | some s ↦ judge_final t turn s
  ]

unfoldable pub judge_status : Host → Stores → Query → Members → Result Exc (Result Reason Members)
judge_status t stores q turn = do
  status ← item "status" turn
  if not (same status (str "completed"))
      then ok (err turn_not_completed)
      else (do stored ← stored_state t stores q.thread; judge_stop t turn stored)

abbrev pub compared_turn : Option Json → Members → Result Exc Bool
compared_turn none turn = ok false
compared_turn (some accepted) turn = item "id" turn >>= λ id. ok (different_turn (some accepted) id)

unfoldable pub judge_match :
    Host → Stores → Query → Members → Members → Result Exc (Result Reason Members)
judge_match t stores q turn i = do
  content ← content_of i
  text ← item "text" q.made
  if not (has_text text content) then ok (err content_mismatch) else (do
    differs ← compared_turn q.accepted_turn turn
    if differs then ok (err accepted_turn_mismatch) else judge_status t stores q turn)

unfoldable pub judge :
    Host → Stores → Query → List (Members × Members) → Result Exc (Result Reason Members)
judge t stores q ((turn, i) ∷ []) = judge_match t stores q turn i
judge t stores q _ = ok (err acceptance_absent_or_duplicated)

-- The thread of the response is the one that was asked for; its turns.
unfoldable pub native_turns : Host → Json → Members → Result Exc (List Members)
native_turns t thread response = do
  native ← item "thread" response >>= members_of
  id ← item "id" native
  raise_if (not (same id thread)) value_error
  cwd ← item "cwd" native
  raise_if (not (same cwd (str t.workspace))) value_error
  item "turns" native >>= list_of

-- Everything that is tested between the response and the writes.
unfoldable pub verdict_of : Host → Stores → Query → Members → Result Exc (Result Reason Members)
verdict_of t stores q response = do
  turns ← native_turns t q.thread response
  found ← all_submissions q.client_id turns
  judge t stores q found

unfoldable pub first_scan : Host → RecoveryEnv → Files → Result Exc Scan
first_scan t env fs = do
  raise_if env.symlinked value_error
  raise_if (not env.own_run) value_error
  first ← load_dict started fs
  cwd ← item "cwd" first
  raise_if (not (same cwd (str t.workspace))) value_error
  thread ← thread_id_of first
  scan fs 1 thread (numbers fs)
