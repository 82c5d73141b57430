-- ===== src/Rollover/Records.antt =====
-- What one stage of a run does to the records of the journal.
use context_rollover_guard.Errors.{Exc}
use context_rollover_guard.Prelude.{◌∙◌, ◌≡◌, true, false, Option, none, some, arith, Result}
use context_rollover_guard.Json.{Json, Members}
use context_rollover_guard.Session.{Platform}
use context_rollover_guard.Rollover.Effects.{
  at_archive, at_settings, Operation, Outcome, Report, at_forward, at_start, World, Journal,
  Accepted, write, call,
}
use context_rollover_guard.Rollover.Checks.{Site, Context}
use context_rollover_guard.Rollover.Run.{
  Env, block, handle, guarded, start_request, begin_thread, ensure_started, settle, turn_request,
  begin_turn, ensure_accepted, commit, archive_request, begin_archive, finish, outcome,
  retention_reason,
}

-- A slot keeps what it has.
abbrev Kept : {A : Type 0} → Option A → Option A → Type 0
Kept none b = Unit {0}
Kept (some v) b = b ≡ some v

pub Kept-trans : {A : Type 0} (a b c : Option A) → Kept a b → Kept b c → Kept a c
Kept-trans none b c h k = tt
Kept-trans (some v) none c h k = cc
Kept-trans (some v) (some w) c h k = k ∙ h

-- Every record of the second journal that the first has is the same.
pub record Extends (j k : Journal) : Type 0 where
  pub prepared : Kept j.prepared k.prepared
  pub start_intent : Kept j.start_intent k.start_intent
  pub started : Kept j.started k.started
  pub forward_intent : Kept j.forward_intent k.forward_intent
  pub accepted : Kept j.accepted k.accepted
  pub archive_intent : Kept j.archive_intent k.archive_intent
  pub archived : Kept j.archived k.archived
  pub committed : Kept j.committed k.committed

module _ (p : Platform) (site : Site) (env : Env) (c : Context) where
  pub begin_thread-Extends :
      (w : World)
      → w.journal.start_intent ≡ none
      → w.journal.started ≡ none
      → Extends w.journal (begin_thread p site env c w).1.journal
  unfolding begin_thread start_request guarded handle block write call
  begin_thread-Extends w h k = ground arith

  pub begin_turn-Extends :
      (new : Json) (w : World)
      → w.journal.forward_intent ≡ none
      → w.journal.accepted ≡ none
      → Extends w.journal (begin_turn p site env c new w).1.journal
  unfolding begin_turn turn_request guarded handle block write call
  begin_turn-Extends new w h k = ground arith

  pub begin_archive-Extends :
      (new : Json) (a : Accepted) (w : World)
      → w.journal.archive_intent ≡ none
      → w.journal.archived ≡ none
      → w.journal.committed ≡ none
      → Extends w.journal (begin_archive p site env c new a w).1.journal
  unfolding begin_archive archive_request guarded handle block commit write call
  begin_archive-Extends new a w h k l = ground arith

  block-Extends {ℓ} :
      (A : Type ℓ) (op : Operation) (w : World)
      → Extends w.journal (block {A = A} env op w).1.journal
  unfolding block write
  block-Extends A op w = ground arith

  pub ensure_started-Extends :
      (w : World) → Extends w.journal (ensure_started p site env c w).1.journal
  unfolding ensure_started
  ensure_started-Extends w =
      ground (arith, begin_thread-Extends w, block-Extends Members at_start w)

  pub settle-Extends :
      (r : Result Exc Json) (w : World) → Extends w.journal (settle p site env c r w).1.journal
  unfolding settle
  settle-Extends r w = ground (arith, block-Extends Json at_settings w)

  pub ensure_accepted-Extends :
      (new : Json) (w : World) → Extends w.journal (ensure_accepted p site env c new w).1.journal
  unfolding ensure_accepted
  ensure_accepted-Extends new w =
      ground (arith, begin_turn-Extends new w, block-Extends Accepted at_forward w)

  pub commit-Extends :
      (o : Outcome) (w : World)
      → w.journal.committed ≡ none
      → Extends w.journal (commit p site env c o w).1.journal
  unfolding commit write
  commit-Extends o w h = ground arith

  pub finish-Extends :
      (new : Json) (a : Accepted) (w : World)
      → w.journal.committed ≡ none
      → Extends w.journal (finish p site env c new a w).1.journal
  unfolding finish
  finish-Extends new a w h = ground (
    arith,
    block-Extends Report at_archive w,
    commit-Extends (outcome p site env c new a true none) w h,
    commit-Extends (outcome p site env c new a false (retention_reason p site env c)) w h,
    begin_archive-Extends new a w,
  )

  -- The stages before the commit leave its record alone.
  pub begin_thread-committed :
      (w : World) → (begin_thread p site env c w).1.journal.committed ≡ w.journal.committed
  unfolding begin_thread start_request guarded handle block write call
  begin_thread-committed w = ground arith

  pub begin_turn-committed :
      (new : Json) (w : World)
      → (begin_turn p site env c new w).1.journal.committed ≡ w.journal.committed
  unfolding begin_turn turn_request guarded handle block write call
  begin_turn-committed new w = ground arith

  pub ensure_started-committed :
      (w : World) → (ensure_started p site env c w).1.journal.committed ≡ w.journal.committed
  unfolding ensure_started block write
  ensure_started-committed w = ground (arith, begin_thread-committed w)

  pub settle-committed :
      (r : Result Exc Json) (w : World)
      → (settle p site env c r w).1.journal.committed ≡ w.journal.committed
  unfolding settle block write
  settle-committed r w = ground arith

  pub ensure_accepted-committed :
      (new : Json) (w : World)
      → (ensure_accepted p site env c new w).1.journal.committed ≡ w.journal.committed
  unfolding ensure_accepted block write
  ensure_accepted-committed new w = ground (arith, begin_turn-committed new w)

pub Extends-trans : {i j k : Journal} → Extends i j → Extends j k → Extends i k
Extends-trans {i} {j} {k} a b = record {
  prepared = Kept-trans i.prepared j.prepared k.prepared a.prepared b.prepared;
  start_intent =
      Kept-trans i.start_intent j.start_intent k.start_intent a.start_intent b.start_intent;
  started = Kept-trans i.started j.started k.started a.started b.started;
  forward_intent =
      Kept-trans i.forward_intent j.forward_intent k.forward_intent a.forward_intent
        b.forward_intent;
  accepted = Kept-trans i.accepted j.accepted k.accepted a.accepted b.accepted;
  archive_intent =
      Kept-trans i.archive_intent j.archive_intent k.archive_intent a.archive_intent
        b.archive_intent;
  archived = Kept-trans i.archived j.archived k.archived a.archived b.archived;
  committed = Kept-trans i.committed j.committed k.committed a.committed b.committed;
}

pub Extends-refl : (j : Journal) → Extends j j
Extends-refl j = ground arith
