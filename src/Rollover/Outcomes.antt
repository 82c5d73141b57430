-- ===== src/Rollover/Outcomes.antt =====
-- What one run and one reconciliation achieve.
use context_rollover_guard.Prelude.{
  ◌∙◌, ap, Option-cases, inl, inr, Result-cases, ◌++◌, if◌then◌else◌, ◌≡◌, refl, ◌⊎◌, Bool, true,
  false, none, some, [], ◌∷◌, arith, ok, ◌&&◌,
}
use context_rollover_guard.Json.{end, member, get, get, Json, Members, bool, member}
use context_rollover_guard.Session.{Platform}
use context_rollover_guard.Settings.{from_start, verify_new_thread, thread_params, turn_params}
use context_rollover_guard.Continuity.{quiet_point}
use context_rollover_guard.Rollover.Effects.{
  Outcome, Journal, World, returns, written, replies, Accepted, write, call, finished, thread_start,
  turn_start, thread_archive,
}
use context_rollover_guard.Rollover.Checks.{
  Site, Context, context, check_thread, receipt_of, receipt_matches,
}
use context_rollover_guard.Rollover.Run.{
  Env, block, handle, guarded, start_request, begin_thread, ensure_started, settle, checked_thread,
  turn_request, begin_turn, ensure_accepted, commit, archive_request, begin_archive, finish,
  from_receipt, from_thread, from_response, stages, run_in, run, outcome, handoff_index,
  archive_allowed, retention_reason,
}
use context_rollover_guard.Rollover.Reconcile.{
  filled, status_of, pending_start, pending_forward, pending_archive,
}
use context_rollover_guard.Rollover.Invariant.{Inv}

-- An empty response names no thread.
check_thread-filled :
    (p : Platform) (c : Context) (m : Members) (new : Json)
    → check_thread p c m ≡ ok new
    → filled (some m) ≡ true
unfolding check_thread verify_new_thread from_start get filled
check_thread-filled p c end new h = absurd (ground arith)
check_thread-filled p c (member key value rest) new h = refl

-- A run on a journal with an intent and no receipt sends no request at all.
pub run-pending :
    (p : Platform) (site : Site) (env : Env) (w : World)
    → Inv w
    → (status_of w.journal ≡ pending_start)
      ⊎ (status_of w.journal ≡ pending_forward)
      ⊎ (status_of w.journal ≡ pending_archive)
    → (run p site env w).1.sent ≡ w.sent
unfolding run run_in stages ensure_started block from_response checked_thread settle from_thread
    ensure_accepted from_receipt finish write status_of filled
run-pending p site env w i h = elim (Result-cases (context p site w.journal)) [
  | inr (e, broken) ↦ ground arith
  | inl (c, intact) ↦ elim (Option-cases w.journal.started) [
    | inl missing ↦ ground arith
    | inr (response, there) ↦ elim (Result-cases (check_thread p c response)) [
      | inr (e, unusable) ↦ ground arith
      | inl (new, usable) ↦
          let named = check_thread-filled p c response new usable in
          let receipt : filled w.journal.started ≡ true = ap filled there ∙ named in ground arith
    ]
  ]
]

-- Every write is durable and every request is answered, the archive included.
pub record Undisturbed (env : Env) (started turn archived : Members) : Type 0 where
  pub schema_start_ok : env.schema_start ≡ true
  pub schema_turn_ok : env.schema_turn ≡ true
  pub start_intent_ok : env.start_intent_write ≡ written
  pub start_ok : env.start_reply ≡ replies started
  pub started_ok : env.started_write ≡ written
  pub forward_intent_ok : env.forward_intent_write ≡ written
  pub turn_ok : env.turn_reply ≡ replies turn
  pub accepted_ok : env.accepted_write ≡ written
  pub archive_intent_ok : env.archive_intent_write ≡ written
  pub archive_ok : env.archive_reply ≡ replies archived
  pub archived_ok : env.archived_write ≡ written
  pub committed_ok : env.committed_write ≡ written

-- The journal holds no record of a run.
abbrev pub Untouched : Journal → Type 0
Untouched j =
    (j.start_intent ≡ none)
    × (j.started ≡ none)
    × (j.forward_intent ≡ none)
    × (j.accepted ≡ none)
    × (j.archive_intent ≡ none)
    × (j.archived ≡ none)
    × (j.committed ≡ none)

module _ (p : Platform) (site : Site) (env : Env) (c : Context) {started turn archived : Members}
    (u : Undisturbed env started turn archived) {params turn_request_params : Members} {new : Json}
    {a : Accepted}
    (start_params : thread_params p c.prepared.settings (some (handoff_index p site env c))
      ≡ ok params)
    (fresh_thread : check_thread p c started ≡ ok new)
    (turn_ready : turn_params c.prepared.settings new c.prompt c.prepared.client_message_id
      ≡ ok turn_request_params)
    (confirmed : receipt_of c new turn ≡ ok a) (matching : receipt_matches c new a ≡ true) where
  abbrev quiet : Bool
  quiet = archive_allowed p site env c && quiet_point env.activity c.prepared.source.thread_id

  abbrev result : Outcome
  result =
      if quiet
      then outcome p site env c new a true none
      else outcome p site env c new a false (retention_reason p site env c)

  -- An undisturbed run from an untouched journal starts the thread, submits the prompt, archives the
  -- source exactly where that is allowed and the source is at a quiet point, and commits the result
  -- that it returns.
  pub run-completes :
      (w : World)
      → context p site w.journal ≡ ok c
      → Untouched w.journal
      → ((run p site env w).0 ≡ returns (finished result))
        × ((run p site env w).1.journal.committed ≡ some result)
        × ((run p site env w).1.sent
            ≡ (if quiet then thread_archive c.prepared.source.thread_id ∷ [] else [])
              ++ (turn_start turn_request_params
                  ∷ thread_start (member "ephemeral" (bool false) params)
                  ∷ w.sent))
  unfolding run run_in stages ensure_started begin_thread guarded start_request handle write call
      from_response checked_thread settle from_thread ensure_accepted begin_turn turn_request
      from_receipt finish begin_archive archive_request commit
  run-completes w k f = ground (arith, u.start_ok)
