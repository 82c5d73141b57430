-- ===== src/Rollover/Named.antt =====
-- Every reconciliation and status query keeps what the requests of a rollover name.
use context_rollover_guard.Prelude.{
  ◌≡◌, ◌⊎◌, sym, subst, inl, inr, ℕ, zero, suc, String, Option, none, some, List, [], Result, ok,
  err, arith, Option-cases, Result-cases,
}
use context_rollover_guard.Json.{Json, Members}
use context_rollover_guard.Errors.{Exc}
use context_rollover_guard.Session.{Platform}
use context_rollover_guard.Rollover.Effects.{
  Prepared, World, M, Fate, Reply, ForwardIntent, Request, thread_read, thread_list, write, call,
}
use context_rollover_guard.Rollover.Checks.{Site, Context, context, thread_id_of}
use context_rollover_guard.Rollover.Reconcile.{
  cursor_of, cursor_json, on_page, Thread, Page, Verdict, record_receipt, read_back, reconcile_in,
  with_context, reconcile_forward, transaction_status, search_pages, archive_in, reconcile_archive,
}
use context_rollover_guard.Rollover.Naming.{
  Bound, Sends, Sends-Bound, Names, Goes, Anything, Goes-bind, Bound-Goes, Goes-Bound,
}

module _ (p : Platform) (c : Context) (d : Prepared) where
  read_back-Sends :
      (intent : ForwardIntent) (started : Members) (reply : Reply Thread) (fate : Fate) (w : World)
      (tid : Json)
      → thread_id_of started ≡ ok tid
      → Sends w (read_back p c intent started reply fate w).1 (thread_read tid)
  unfolding read_back record_receipt call write
  read_back-Sends intent started reply fate w tid h = ground arith

  read_back-refused :
      (intent : ForwardIntent) (started : Members) (reply : Reply Thread) (fate : Fate) (w : World)
      (e : Exc)
      → thread_id_of started ≡ err e
      → (read_back p c intent started reply fate w).1 ≡ w
  unfolding read_back
  read_back-refused intent started reply fate w e h = ground arith

  read_back-Bound :
      (intent : ForwardIntent) (started : Members) (reply : Reply Thread) (fate : Fate) (w : World)
      → Bound d w
      → Bound d (read_back p c intent started reply fate w).1
  unfolding Names
  read_back-Bound intent started reply fate w b = elim (Result-cases (thread_id_of started)) [
    | inr (e, h) ↦ subst (Bound d) (sym (read_back-refused intent started reply fate w e h)) b
    | inl (tid, h) ↦
        Sends-Bound d w (read_back p c intent started reply fate w).1 (thread_read tid) tt b
          (read_back-Sends intent started reply fate w tid h)
  ]

  reconcile_in-cases :
      (reply : Reply Thread) (fate : Fate) (w : World) (intent : ForwardIntent) (started : Members)
      → w.journal.forward_intent ≡ some intent
      → w.journal.started ≡ some started
      → ((reconcile_in p c reply fate w).1 ≡ w)
        ⊎ ((reconcile_in p c reply fate w).1 ≡ (read_back p c intent started reply fate w).1)
  unfolding reconcile_in
  reconcile_in-cases reply fate w intent started h k = ground arith

  reconcile_in-Bound :
      (reply : Reply Thread) (fate : Fate) (w : World)
      → Bound d w
      → Bound d (reconcile_in p c reply fate w).1
  unfolding reconcile_in
  reconcile_in-Bound reply fate w b = elim (Option-cases w.journal.forward_intent) [
    | inl absent ↦
        let stays : (reconcile_in p c reply fate w).1 ≡ w = ground arith in
        subst (Bound d) (sym stays) b
    | inr (intent, h) ↦ elim (Option-cases w.journal.started) [
      | inl absent ↦
          let stays : (reconcile_in p c reply fate w).1 ≡ w = ground arith in
          subst (Bound d) (sym stays) b
      | inr (started, k) ↦ elim (reconcile_in-cases reply fate w intent started h k) [
        | inl stays ↦ subst (Bound d) (sym stays) b
        | inr read ↦ subst (Bound d) (sym read) (read_back-Bound intent started reply fate w b)
      ]
    ]
  ]

  call-Sends :
      (cursor : Option Json) (reply : Reply Page) (w : World)
      → Sends w (call (thread_list cursor) reply w).1 (thread_list cursor)
  unfolding call
  call-Sends cursor reply w = ground arith

  on_page-cases :
      (fate : Fate) (seen : List String) (page : Page) (rest : M Verdict) (w : World) (r : Request)
      → ((on_page c fate seen page rest w).1 ≡ (rest w).1)
        ⊎ Sends w (on_page c fate seen page rest w).1 r
  unfolding on_page write
  on_page-cases fate seen page rest w r = ground arith

  on_page-Goes :
      (fate : Fate) (seen : List String) (page : Page) (rest : M Verdict) (w : World)
      → Bound d w
      → Bound d (rest w).1
      → Goes d Anything (on_page c fate seen page rest w)
  unfolding Names
  on_page-Goes fate seen page rest w b after =
      let end = on_page c fate seen page rest w in
      Bound-Goes d Anything end.0 end.1
        (elim (on_page-cases fate seen page rest w (thread_list none)) [
          | inl goes_on ↦ subst (Bound d) (sym goes_on) after
          | inr sends ↦ Sends-Bound d w end.1 (thread_list none) tt b sends
        ])
        (λ a e. tt)

  search_pages-Goes :
      (fate : Fate) (pages : ℕ → Reply Page) (n : ℕ) (cursor : Option String) (seen : List String)
      (w : World)
      → Bound d w
      → Goes d Anything (search_pages c fate pages n cursor seen w)
  unfolding search_pages Names
  search_pages-Goes fate pages zero cursor seen w b = (b, tt)
  search_pages-Goes fate pages (suc n) cursor seen w b =
      let asked = call (thread_list (cursor_json cursor)) (pages n) w in
      Goes-bind d Anything Anything (call (thread_list (cursor_json cursor)) (pages n))
        (λ page.
          on_page c fate seen page
            (search_pages c fate pages n page.next (cursor_of page.next seen)))
        w
        (Bound-Goes d Anything asked.0 asked.1
          (Sends-Bound d w asked.1 (thread_list (cursor_json cursor)) tt b
            (call-Sends (cursor_json cursor) (pages n) w))
          (λ a e. tt))
        λ page u v k.
          let rest = search_pages c fate pages n page.next (cursor_of page.next seen) u in
          on_page-Goes fate seen page _ u v (
            Goes-Bound d Anything rest.0 rest.1
              (search_pages-Goes fate pages n page.next (cursor_of page.next seen) u v))

  archive_in-cases :
      (fate : Fate) (pages : ℕ → Reply Page) (n : ℕ) (w : World)
      → ((archive_in c fate pages n w).1 ≡ w)
        ⊎ ((archive_in c fate pages n w).1 ≡ (search_pages c fate pages n none [] w).1)
  unfolding archive_in
  archive_in-cases fate pages n w = ground arith

  archive_in-Bound :
      (fate : Fate) (pages : ℕ → Reply Page) (n : ℕ) (w : World)
      → Bound d w
      → Bound d (archive_in c fate pages n w).1
  archive_in-Bound fate pages n w b = elim (archive_in-cases fate pages n w) [
    | inl stays ↦ subst (Bound d) (sym stays) b
    | inr searched ↦
        let end = search_pages c fate pages n none [] w in
        subst (Bound d) (sym searched)
          (Goes-Bound d Anything end.0 end.1 (search_pages-Goes fate pages n none [] w b))
  ]

with_context-Bound {ℓ} :
    (A : Type ℓ) (d : Prepared) (r : Result Exc Context) (f : Context → M A) (w : World)
    → Bound d w
    → ((c : Context) → Bound d (f c w).1)
    → Bound d (with_context r f w).1
unfolding with_context
with_context-Bound A d (err e) f w b k = b
with_context-Bound A d (ok c) f w b k = k c

pub reconcile_forward-Bound :
    (p : Platform) (site : Site) (reply : Reply Thread) (fate : Fate) (d : Prepared) (w : World)
    → Bound d w
    → Bound d (reconcile_forward p site reply fate w).1
unfolding reconcile_forward
reconcile_forward-Bound p site reply fate d w b =
    with_context-Bound Verdict d (context p site w.journal) (λ c. reconcile_in p c reply fate) w b
      (λ c. reconcile_in-Bound p c d reply fate w b)

pub reconcile_archive-Bound :
    (p : Platform) (site : Site) (fate : Fate) (pages : ℕ → Reply Page) (n : ℕ) (d : Prepared)
    (w : World)
    → Bound d w
    → Bound d (reconcile_archive p site fate pages n w).1
unfolding reconcile_archive
reconcile_archive-Bound p site fate pages n d w b =
    with_context-Bound Verdict d (context p site w.journal) (λ c. archive_in c fate pages n) w b
      (λ c. archive_in-Bound p c d fate pages n w b)

pub transaction_status-Bound :
    (p : Platform) (site : Site) (d : Prepared) (w : World)
    → Bound d w
    → Bound d (transaction_status p site w).1
unfolding transaction_status
transaction_status-Bound p site d w b =
    with_context-Bound Verdict d (context p site w.journal) _ w b (λ c. b)
