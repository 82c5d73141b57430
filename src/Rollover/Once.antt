-- ===== src/Rollover/Once.antt =====
-- Every run keeps the invariant of the journal.
use context_rollover_guard.Prelude.{false, true, ◌≡◌, none, arith, Bool, Result, ok, err}
use context_rollover_guard.Json.{Json, Members}
use context_rollover_guard.Errors.{transaction_error, Exc}
use context_rollover_guard.Rollover.Effects.{
  at_archive, Report, at_settings, at_forward, at_start, World, write, call, Operation, Accepted,
  Outcome,
}
use context_rollover_guard.Rollover.Checks.{receipt_matches, check_thread, context, Site, Context}
use context_rollover_guard.Rollover.Run.{
  from_response, from_thread, from_receipt, retention_reason, outcome, raise_unless, Env, block,
  handle, guarded, start_request, begin_thread, ensure_started, settle, checked_thread,
  turn_request, begin_turn, ensure_accepted, commit, archive_request, begin_archive, finish, stages,
  run_in, run,
}
use context_rollover_guard.Rollover.Invariant.{
  Inv, Goes, Goes-bind, Goes-world, Anywhere, HasStarted, HasAccepted,
}
use context_rollover_guard.Session.{Platform}

block-Goes {ℓ} :
    (A : Type ℓ) (env : Env) (Q : World → Type 0) (op : Operation) (w : World)
    → Inv w
    → Goes Inv Q (block {A = A} env op w)
unfolding block write
block-Goes A env Q op w v = ground arith

unless-Goes :
    (b : Bool) (e : Exc) (w : World)
    → Inv w
    → HasAccepted w
    → Goes Inv HasAccepted (raise_unless b e w)
unless-Goes true e w v h = (v, h)
unless-Goes false e w v h = v

module _ (p : Platform) (site : Site) (env : Env) (c : Context) where
  begin_thread-Goes :
      (w : World)
      → w.journal.start_intent ≡ none
      → Inv w
      → Goes Inv HasStarted (begin_thread p site env c w)
  unfolding begin_thread start_request guarded handle block write call
  begin_thread-Goes w h v = ground arith

  ensure_started-Goes : (w : World) → Inv w → Goes Inv HasStarted (ensure_started p site env c w)
  unfolding ensure_started
  ensure_started-Goes w v =
      ground (arith, begin_thread-Goes w, block-Goes Members env HasStarted at_start w)

  settle-Goes :
      (r : Result Exc Json) (w : World)
      → Inv w
      → HasStarted w
      → Goes Inv HasStarted (settle p site env c r w)
  unfolding settle
  settle-Goes (ok new) w v h = (v, h)
  settle-Goes (err e) w v h = ground (arith, block-Goes Json env HasStarted at_settings w)

  begin_turn-Goes :
      (new : Json) (w : World)
      → w.journal.forward_intent ≡ none
      → Inv w
      → HasStarted w
      → Goes Inv HasAccepted (begin_turn p site env c new w)
  unfolding begin_turn turn_request guarded handle block write call
  begin_turn-Goes new w h v s = ground arith

  ensure_accepted-Goes :
      (new : Json) (w : World)
      → Inv w
      → HasStarted w
      → Goes Inv HasAccepted (ensure_accepted p site env c new w)
  unfolding ensure_accepted
  ensure_accepted-Goes new w v s =
      ground (arith, begin_turn-Goes new w, block-Goes Accepted env HasAccepted at_forward w)

  commit-Goes :
      (o : Outcome) (w : World)
      → Inv w
      → HasAccepted w
      → Goes Inv Anywhere (commit p site env c o w)
  unfolding commit write
  commit-Goes o w v h = ground arith

  begin_archive-Goes :
      (new : Json) (a : Accepted) (w : World)
      → w.journal.archive_intent ≡ none
      → Inv w
      → HasAccepted w
      → Goes Inv Anywhere (begin_archive p site env c new a w)
  unfolding begin_archive archive_request guarded handle block commit write call
  begin_archive-Goes new a w h v s = ground arith

  finish-Goes :
      (new : Json) (a : Accepted) (w : World)
      → Inv w
      → HasAccepted w
      → Goes Inv Anywhere (finish p site env c new a w)
  unfolding finish
  finish-Goes new a w v h = ground (
    arith,
    block-Goes Report env Anywhere at_archive w v,
    commit-Goes (outcome p site env c new a true none) w v h,
    commit-Goes (outcome p site env c new a false (retention_reason p site env c)) w v h,
    begin_archive-Goes new a w,
  )

  from_receipt-Goes :
      (new : Json) (a : Accepted) (w : World)
      → Inv w
      → HasAccepted w
      → Goes Inv Anywhere (from_receipt p site env c new a w)
  unfolding from_receipt
  from_receipt-Goes new a w v h =
      Goes-bind Inv HasAccepted Anywhere (raise_unless (receipt_matches c new a) transaction_error)
        (λ done. finish p site env c new a) w
        (unless-Goes (receipt_matches c new a) transaction_error w v h)
        λ done u. finish-Goes new a u

  from_thread-Goes :
      (new : Json) (w : World)
      → Inv w
      → HasStarted w
      → Goes Inv Anywhere (from_thread p site env c new w)
  unfolding from_thread
  from_thread-Goes new w v h =
      Goes-bind Inv HasAccepted Anywhere (ensure_accepted p site env c new)
        (from_receipt p site env c new) w (ensure_accepted-Goes new w v h) (from_receipt-Goes new)

  from_response-Goes :
      (r : Members) (w : World)
      → Inv w
      → HasStarted w
      → Goes Inv Anywhere (from_response p site env c r w)
  unfolding from_response checked_thread
  from_response-Goes r w v h =
      Goes-bind Inv HasStarted Anywhere (settle p site env c (check_thread p c r))
        (from_thread p site env c) w (settle-Goes (check_thread p c r) w v h) from_thread-Goes

  stages-Goes : (w : World) → Inv w → Goes Inv Anywhere (stages p site env c w)
  unfolding stages
  stages-Goes w v =
      Goes-bind Inv HasStarted Anywhere (ensure_started p site env c) (from_response p site env c) w
        (ensure_started-Goes w v) from_response-Goes

run_in-Goes :
    (p : Platform) (site : Site) (env : Env) (c : Result Exc Context) (w : World)
    → Inv w
    → Goes Inv Anywhere (run_in p site env c w)
unfolding run_in
run_in-Goes p site env (err e) w v = v
run_in-Goes p site env (ok c) w v = ground (arith, stages-Goes p site env c w v)

-- A run that fails or dies at any of its writes and requests keeps the invariant.
pub run-Inv :
    (p : Platform) (site : Site) (env : Env) (w : World) → Inv w → Inv (run p site env w).1
unfolding run
run-Inv p site env w v =
    Goes-world Inv Anywhere _ (run_in-Goes p site env (context p site w.journal) w v)
