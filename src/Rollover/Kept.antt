-- ===== src/Rollover/Kept.antt =====
-- A record that the journal holds is never changed or removed by a run.
use context_rollover_guard.Rollover.Records.{
  ensure_accepted-committed, ensure_started-committed, Extends-refl, Extends-trans,
  settle-committed, Extends, settle-Extends, finish-Extends, ensure_accepted-Extends,
  ensure_started-Extends,
}
use context_rollover_guard.Errors.{Exc}
use context_rollover_guard.Prelude.{
  Option-cases, Bool-cases, ◌∙◌, ◌≡◌, inl, inr, none, arith, Result, ok, err,
}
use context_rollover_guard.Json.{Json, Members}
use context_rollover_guard.Session.{Platform}
use context_rollover_guard.Rollover.Effects.{
  stops, raises, leaves, returns, Answer, Report, World, Journal, Accepted,
}
use context_rollover_guard.Rollover.Checks.{receipt_matches, check_thread, Site, Context, context}
use context_rollover_guard.Rollover.Run.{
  Env, ensure_started, settle, checked_thread, ensure_accepted, finish, from_receipt, from_thread,
  from_response, stages, run_in, run, raise_unless,
}
use context_rollover_guard.Rollover.Invariant.{Goes, Goes-bind, Goes-world, Anywhere}

module _ (start : Journal) where
  After : World → Type 0
  After u = Extends start u.journal

  Uncommitted : World → Type 0
  Uncommitted u = u.journal.committed ≡ none

  Goes-Extends {ℓ} :
      (A : Type ℓ) (w : World) (end : Answer A × World)
      → Extends start w.journal
      → Extends w.journal end.1.journal
      → Goes After Anywhere end
  unfolding After
  Goes-Extends A w (returns a, u) h k = (Extends-trans h k, tt)
  Goes-Extends A w (leaves r, u) h k = Extends-trans h k
  Goes-Extends A w (raises e, u) h k = Extends-trans h k
  Goes-Extends A w (stops, u) h k = Extends-trans h k

  Goes-Uncommitted {ℓ} :
      (A : Type ℓ) (w : World) (end : Answer A × World)
      → Extends start w.journal
      → Extends w.journal end.1.journal
      → end.1.journal.committed ≡ w.journal.committed
      → w.journal.committed ≡ none
      → Goes After Uncommitted end
  unfolding After Uncommitted
  Goes-Uncommitted A w (returns a, u) h k e n = (Extends-trans h k, e ∙ n)
  Goes-Uncommitted A w (leaves r, u) h k e n = Extends-trans h k
  Goes-Uncommitted A w (raises e', u) h k e n = Extends-trans h k
  Goes-Uncommitted A w (stops, u) h k e n = Extends-trans h k

  module _ (p : Platform) (site : Site) (env : Env) (c : Context) where
    from_receipt-After :
        (new : Json) (a : Accepted) (w : World)
        → After w
        → Uncommitted w
        → Goes After Anywhere (from_receipt p site env c new a w)
    unfolding from_receipt After Uncommitted
    from_receipt-After new a w h n = elim (Bool-cases (receipt_matches c new a)) [
      | inl e ↦
          rw (e, raise_unless)
            (Goes-Extends Report w (finish p site env c new a w) h
              (finish-Extends p site env c new a w n))
      | inr e ↦ rw (e, raise_unless) h
    ]

    from_thread-After :
        (new : Json) (w : World)
        → After w
        → Uncommitted w
        → Goes After Anywhere (from_thread p site env c new w)
    unfolding from_thread After Uncommitted
    from_thread-After new w h n =
        Goes-bind After Uncommitted Anywhere (ensure_accepted p site env c new)
          (from_receipt p site env c new) w
          (Goes-Uncommitted Accepted w _ h (ensure_accepted-Extends p site env c new w)
            (ensure_accepted-committed p site env c new w) n)
          (from_receipt-After new)

    from_response-After :
        (r : Members) (w : World)
        → After w
        → Uncommitted w
        → Goes After Anywhere (from_response p site env c r w)
    unfolding from_response checked_thread After Uncommitted
    from_response-After r w h n =
        Goes-bind After Uncommitted Anywhere (settle p site env c (check_thread p c r))
          (from_thread p site env c) w
          (Goes-Uncommitted Json w _ h (settle-Extends p site env c (check_thread p c r) w)
            (settle-committed p site env c (check_thread p c r) w) n)
          from_thread-After

    stages-After :
        (w : World) → After w → Uncommitted w → Goes After Anywhere (stages p site env c w)
    unfolding stages After Uncommitted
    stages-After w h n =
        Goes-bind After Uncommitted Anywhere (ensure_started p site env c)
          (from_response p site env c) w
          (Goes-Uncommitted Members w _ h (ensure_started-Extends p site env c w)
            (ensure_started-committed p site env c w) n)
          from_response-After

run_in-Extends :
    (p : Platform) (site : Site) (env : Env) (r : Result Exc Context) (w : World)
    → Extends w.journal (run_in p site env r w).1.journal
unfolding run_in After Uncommitted
run_in-Extends p site env (err e) w = Extends-refl w.journal
run_in-Extends p site env (ok c) w = elim (Option-cases w.journal.committed) [
  | inr (o, there) ↦ ground (arith, Extends-refl w.journal)
  | inl absent ↦ ground (
    arith,
    Goes-world (After w.journal) Anywhere (stages p site env c w)
        (stages-After w.journal p site env c w (Extends-refl w.journal) absent),
  )
]

-- A run changes and removes no record of the journal, wherever its writes fail or it dies.
pub run-Extends :
    (p : Platform) (site : Site) (env : Env) (w : World)
    → Extends w.journal (run p site env w).1.journal
unfolding run
run-Extends p site env w = run_in-Extends p site env (context p site w.journal) w
