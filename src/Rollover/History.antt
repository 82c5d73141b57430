-- ===== src/Rollover/History.antt =====
-- Any history of runs, reconciliations and status queries on one journal.
use context_rollover_guard.Prelude.{
  inr, inl, Option-cases, ℕ, zero, suc, ◌≤◌, ◌≡◌, refl, All, String, false, Option, none, some,
  List, [], ◌∷◌, arith, Result, ok, err,
}
use context_rollover_guard.Json.{Json, Members}
use context_rollover_guard.Errors.{Exc}
use context_rollover_guard.Session.{Platform}
use context_rollover_guard.Rollover.Effects.{
  Prepared, thread_list, World, M, Fate, Reply, ForwardIntent, Accepted, write, call,
}
use context_rollover_guard.Rollover.Checks.{Site, Context, context}
use context_rollover_guard.Rollover.Run.{Env, run}
use context_rollover_guard.Rollover.Reconcile.{
  cursor_of, cursor_json, on_page, Thread, Page, Verdict, record_receipt, read_back, reconcile_in,
  with_context, reconcile_forward, transaction_status, search_pages, archive_in, reconcile_archive,
}
use context_rollover_guard.Rollover.Invariant.{
  Inv, Goes, Goes-bind, Goes-world, Anywhere, flag, times, is_start, is_turn, is_archive,
}
use context_rollover_guard.Rollover.Once.{run-Inv}
use context_rollover_guard.Rollover.Naming.{Bound, Names}
use context_rollover_guard.Rollover.Bound.{run-Bound}
use context_rollover_guard.Rollover.Named.{
  reconcile_forward-Bound, reconcile_archive-Bound, transaction_status-Bound,
}

HasIntent : World → Type 0
HasIntent w = flag w.journal.forward_intent ≡ 1

record_receipt-Goes :
    (fate : Fate) (r : Result Verdict Accepted) (w : World)
    → Inv w
    → flag w.journal.forward_intent ≡ 1
    → Goes Inv Anywhere (record_receipt fate r w)
unfolding record_receipt write
record_receipt-Goes fate (err v) w i h = (i, tt)
record_receipt-Goes fate (ok a) w i h = ground arith

read_back-Goes :
    (p : Platform) (c : Context) (intent : ForwardIntent) (started : Members) (reply : Reply Thread)
    (fate : Fate) (w : World)
    → Inv w
    → flag w.journal.forward_intent ≡ 1
    → Goes Inv Anywhere (read_back p c intent started reply fate w)
unfolding read_back record_receipt call write
read_back-Goes p c intent started reply fate w i h = ground arith

HasArchiveIntent : World → Type 0
HasArchiveIntent w = flag w.journal.archive_intent ≡ 1

call-Goes :
    (cursor : Option Json) (reply : Reply Page) (w : World)
    → Inv w
    → flag w.journal.archive_intent ≡ 1
    → Goes Inv HasArchiveIntent (call (thread_list cursor) reply w)
unfolding call HasArchiveIntent
call-Goes cursor reply w i h = ground arith

on_page-Goes :
    (c : Context) (fate : Fate) (seen : List String) (page : Page) (rest : M Verdict) (w : World)
    → Inv w
    → flag w.journal.archive_intent ≡ 1
    → Goes Inv Anywhere (rest w)
    → Goes Inv Anywhere (on_page c fate seen page rest w)
unfolding on_page write
on_page-Goes c fate seen page rest w i h g = ground arith

search_pages-Goes :
    (c : Context) (fate : Fate) (pages : ℕ → Reply Page) (n : ℕ) (cursor : Option String)
    (seen : List String) (w : World)
    → Inv w
    → flag w.journal.archive_intent ≡ 1
    → Goes Inv Anywhere (search_pages c fate pages n cursor seen w)
unfolding search_pages HasArchiveIntent
search_pages-Goes c fate pages zero cursor seen w i h = (i, tt)
search_pages-Goes c fate pages (suc n) cursor seen w i h =
    Goes-bind Inv HasArchiveIntent Anywhere (call (thread_list (cursor_json cursor)) (pages n))
      (λ page.
        on_page c fate seen page (search_pages c fate pages n page.next (cursor_of page.next seen)))
      w (call-Goes (cursor_json cursor) (pages n) w i h)
      λ page u v k.
        on_page-Goes c fate seen page _ u v k
          (search_pages-Goes c fate pages n page.next (cursor_of page.next seen) u v k)

with_context-Goes {ℓ} :
    (A : Type ℓ) (r : Result Exc Context) (f : Context → M A) (w : World)
    → Inv w
    → ((c : Context) → Goes Inv Anywhere (f c w))
    → Goes Inv Anywhere (with_context r f w)
unfolding with_context
with_context-Goes A (err e) f w i h = i
with_context-Goes A (ok c) f w i h = h c

reconcile_in-Goes :
    (p : Platform) (c : Context) (reply : Reply Thread) (fate : Fate) (w : World)
    → Inv w
    → Goes Inv Anywhere (reconcile_in p c reply fate w)
unfolding reconcile_in
reconcile_in-Goes p c reply fate w i = elim (Option-cases w.journal.forward_intent) [
  | inl absent ↦ ground arith
  | inr (intent, there) ↦ elim (Option-cases w.journal.started) [
    | inl absent ↦ ground arith
    | inr (started, here) ↦
        ground (arith, read_back-Goes p c intent started reply fate w i (ground arith))
  ]
]

archive_in-Goes :
    (c : Context) (fate : Fate) (pages : ℕ → Reply Page) (n : ℕ) (w : World)
    → Inv w
    → Goes Inv Anywhere (archive_in c fate pages n w)
unfolding archive_in
archive_in-Goes c fate pages n w i = ground (arith, search_pages-Goes c fate pages n none [] w i)

-- One call of an operation, with what its effects met and the site where it ran.
pub data Action : Type 0 where
  runs : Env → Action
  reconciles : Reply Thread → Fate → Action
  confirms : Fate → (ℕ → Reply Page) → ℕ → Action
  asks : Action

unfoldable pub act : Platform → Site → Action → World → World
act p site (runs env) w = (run p site env w).1
act p site (reconciles reply fate) w = (reconcile_forward p site reply fate w).1
act p site (confirms fate pages n) w = (reconcile_archive p site fate pages n w).1
act p site asks w = (transaction_status p site w).1

unfoldable pub history : Platform → World → List (Site × Action) → World
history p w [] = w
history p w ((site, a) ∷ rest) = history p (act p site a w) rest

act-Inv : (p : Platform) (site : Site) (a : Action) (w : World) → Inv w → Inv (act p site a w)
unfolding act reconcile_forward reconcile_archive transaction_status
act-Inv p site (runs env) w i = run-Inv p site env w i
act-Inv p site (reconciles reply fate) w i = Goes-world Inv Anywhere _ (
    with_context-Goes Verdict (context p site w.journal) (λ c. reconcile_in p c reply fate) w i
      (λ c. reconcile_in-Goes p c reply fate w i))
act-Inv p site (confirms fate pages n) w i = Goes-world Inv Anywhere _ (
    with_context-Goes Verdict (context p site w.journal) (λ c. archive_in c fate pages n) w i
      (λ c. archive_in-Goes c fate pages n w i))
act-Inv p site asks w i =
    Goes-world Inv Anywhere _
      (with_context-Goes Verdict (context p site w.journal) _ w i (λ c. (i, tt)))

pub history-Inv :
    (p : Platform) (w : World) (actions : List (Site × Action)) → Inv w → Inv (history p w actions)
unfolding history
history-Inv p w [] i = i
history-Inv p w ((site, a) ∷ rest) i = history-Inv p (act p site a w) rest (act-Inv p site a w i)

-- A journal in which `prepare` has written its one record.
abbrev pub fresh : Prepared → World
fresh prepared = record {
  journal = record {
    prepared = some prepared;
    start_intent = none;
    started = none;
    forward_intent = none;
    accepted = none;
    archive_intent = none;
    archived = none;
    committed = none;
    recoveries = record { start = false; settings = false; forward = false; archive = false };
  };
  sent = [];
}

-- Whatever runs and reconciliations follow one another, and wherever each of them fails or dies, a
-- rollover starts at most one thread, submits its prompt at most once and archives at most once.
pub history-at_most_once :
    (p : Platform) (prepared : Prepared) (actions : List (Site × Action))
    → (times is_start (history p (fresh prepared) actions).sent ≤ 1)
      × (times is_turn (history p (fresh prepared) actions).sent ≤ 1)
      × (times is_archive (history p (fresh prepared) actions).sent ≤ 1)
history-at_most_once p prepared actions =
    let i = history-Inv p (fresh prepared) actions (omega arith) in ground arith

act-Bound :
    (p : Platform) (d : Prepared) (site : Site) (a : Action) (w : World)
    → Bound d w
    → Bound d (act p site a w)
unfolding act
act-Bound p d site (runs env) w b = run-Bound p site env d w b
act-Bound p d site (reconciles reply fate) w b = reconcile_forward-Bound p site reply fate d w b
act-Bound p d site (confirms fate pages n) w b = reconcile_archive-Bound p site fate pages n d w b
act-Bound p d site asks w b = transaction_status-Bound p site d w b

history-Bound :
    (p : Platform) (d : Prepared) (w : World) (actions : List (Site × Action))
    → Bound d w
    → Bound d (history p w actions)
unfolding history
history-Bound p d w [] b = b
history-Bound p d w ((site, a) ∷ rest) b =
    history-Bound p d (act p site a w) rest (act-Bound p d site a w b)

-- At the end of every history of runs, reconciliations and status queries, each turn/start that was
-- sent is for the thread that the recorded response to thread/start names, and each thread/archive
-- for the source thread of the prepared record. A turn/start was sent only if that response is
-- recorded, a thread/archive only if the receipt of the prompt is, and a commit is recorded only if
-- that receipt is too.
pub history-in_order :
    (p : Platform) (prepared : Prepared) (actions : List (Site × Action))
    → All
        (Names prepared (history p (fresh prepared) actions).journal.started)
        (history p (fresh prepared) actions).sent
      × (times is_turn (history p (fresh prepared) actions).sent
          ≤ flag (history p (fresh prepared) actions).journal.started)
      × (times is_archive (history p (fresh prepared) actions).sent
          ≤ flag (history p (fresh prepared) actions).journal.accepted)
      × (flag (history p (fresh prepared) actions).journal.committed
          ≤ flag (history p (fresh prepared) actions).journal.accepted)
history-in_order p prepared actions =
    let i = history-Inv p (fresh prepared) actions (omega arith) in
    let b =
      history-Bound p prepared (fresh prepared) actions (record { prepared = refl; named = tt }) in
    (b.named, omega arith, omega arith, omega arith)
