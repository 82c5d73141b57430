-- ===== src/Owned/Opened.antt =====
-- What the scan of a reconciliation finds of one input.
use context_rollover_guard.Owned.Files.{accepted}
use context_rollover_guard.Prelude.{raise_if-eq-ok}
use context_rollover_guard.Owned.Files.{accepted}
use context_rollover_guard.Prelude.{raise_if-eq-ok}
use context_rollover_guard.Owned.Events.{turn_item}
use context_rollover_guard.Settings.{item}
use context_rollover_guard.Rollover.Checks.{members_of}
use context_rollover_guard.Owned.Walk.{load_dict, new_thread, routed, finished_input}
use context_rollover_guard.Errors.{value_error, Exc}
use context_rollover_guard.Prelude.{if-eq-ok}
use context_rollover_guard.Owned.Files.{
  exists, find, Files, completed, route, intent, transaction, input,
}
use context_rollover_guard.Owned.Recovery.{
  accepted_turn_of, input_of, Query, Reason, receipt_holds, rollover_query, thread_after,
  direct_query, open_input, Scan, settled, asks, blocked,
}
use context_rollover_guard.Prelude.{
  ℕ, ◌≡◌, refl, subst, inl, inr, true, not, Option, none, some, arith, if◌then◌else◌, Result, ok,
  >>=-eq-ok, Result-cases, Bool-cases,
}
use context_rollover_guard.Json.{Json, Members, null, str, same}

-- What an open input is asked for: nothing, or its own completion on its thread.
abbrev pub AsksAt : ℕ → Json → Scan → Type 0
AsksAt n thread (settled v) = (r : Reason) × (v ≡ blocked r)
AsksAt n thread (asks q) = (q.number ≡ n) × (q.thread ≡ thread)

pub asks_at :
    (n : ℕ) (thread : Json) {q : Query} (s : Scan)
    → q.number ≡ n
    → q.thread ≡ thread
    → ◌≡◌ {A = Result Exc Scan} (ok (asks q)) (ok s)
    → AsksAt n thread s
asks_at n thread {q} s e e' h =
    let same_scan : asks q ≡ s = ground arith in subst (AsksAt n thread) same_scan (e, e')

pub stays_at :
    (n : ℕ) (thread : Json) {r : Reason} (s : Scan)
    → ◌≡◌ {A = Result Exc Scan} (ok (settled (blocked r))) (ok s)
    → AsksAt n thread s
stays_at n thread {r} s h =
    let same_scan : settled (blocked r) ≡ s = ground arith in
    subst (AsksAt n thread) same_scan (r, refl)

pub direct_query-AsksAt :
    (fs : Files) (n : ℕ) (thread : Json) (made : Members) (s : Scan)
    → direct_query fs n thread made ≡ ok s
    → AsksAt n thread s
unfolding direct_query
direct_query-AsksAt fs n thread made s h =
    elim (if-eq-ok (not (exists (input n intent) fs)) _ _ h) [
      | inl (absent, e) ↦ stays_at n thread s e
      | inr (there, e) ↦
          let (sent, _, h1) = >>=-eq-ok (load_dict (input n intent) fs) _ e in
          let (at, _, h2) = >>=-eq-ok (item "threadId" sent) _ h1 in
          let (_, h3) = raise_if-eq-ok (not (same at thread)) value_error _ h2 in
          let (given, _, h4) = >>=-eq-ok (item "input" sent) _ h3 in
          let (text, _, h5) = >>=-eq-ok (item "text" made) _ h4 in
          let (_, h6) = raise_if-eq-ok (not (same given (input_of text))) value_error _ h5 in
          let (id, _, h7) = >>=-eq-ok (item "clientUserMessageId" sent) _ h6 in
          let (turn, _, h8) =
            >>=-eq-ok (accepted_turn_of thread (find (input n accepted) fs)) _ h7 in
          asks_at n thread s refl refl h8
    ]

pub rollover_query-AsksAt :
    (fs : Files) (n : ℕ) (thread : Json) (made : Members) (o : Option Json) (s : Scan)
    → rollover_query fs n thread made o ≡ ok s
    → AsksAt n thread s
unfolding rollover_query
rollover_query-AsksAt fs n thread made none s h = stays_at n thread s h
rollover_query-AsksAt fs n thread made (some v) s h =
    let (kept, _, h1) = >>=-eq-ok (load_dict (input n transaction) fs) _ h in
    let (rid, _, h2) = >>=-eq-ok (item "rollover_id" kept) _ h1 in
    let (result, _, h3) = >>=-eq-ok (members_of v) _ h2 in
    let (turn, _, h4) = >>=-eq-ok (item "accepted_turn_id" result) _ h3 in
    asks_at n thread s refl refl h4

pub open_input-AsksAt :
    (fs : Files) (n : ℕ) (thread : Json) (made : Members) (s : Scan)
    → open_input fs n thread made ≡ ok s
    → AsksAt n thread s
unfolding open_input
open_input-AsksAt fs n thread made s h = elim (if-eq-ok (exists (input n transaction) fs) _ _ h) [
  | inl (there, e) ↦ rollover_query-AsksAt fs n thread made (find (input n route) fs) s e
  | inr (absent, e) ↦ direct_query-AsksAt fs n thread made s e
]

-- The route that a reconciliation follows is the one that `resume` follows.
pub thread_after-routed :
    (thread new : Json) (o : Option Json)
    → thread_after thread o ≡ ok (some new)
    → routed thread o ≡ ok new
unfolding thread_after routed new_thread
thread_after-routed thread new none h = ground arith
thread_after-routed thread new (some v) h =
    let (r, is_dict, h1) = >>=-eq-ok (members_of v) _ h in
    let (state, has_state, h2) = >>=-eq-ok (item "state" r) _ h1 in
    let (old, has_old, h3) =
      >>=-eq-ok (if same state (str "NORMAL") then item "old_thread_id" r else ok null) _ h2 in
    elim (Bool-cases (same state (str "NORMAL"))) [
      | inr other ↦ absurd (ground arith)
      | inl goes ↦ elim (Bool-cases (same old thread)) [
        | inr other ↦ absurd (ground arith)
        | inl same_old ↦ elim (Result-cases (item "new_thread_id" r)) [
          | inl (w, there) ↦ ground arith
          | inr (e, missing) ↦ absurd (ground arith)
        ]
      ]
    ]

-- An input with a receipt that holds passes.
pub finished_input-ok :
    (fs : Files) (n : ℕ) (thread new v : Json)
    → find (input n completed) fs ≡ some v
    → receipt_holds new v ≡ ok true
    → routed thread (find (input n route) fs) ≡ ok new
    → (receipt : Members) × (finished_input fs n thread ≡ ok (new, receipt))
unfolding finished_input receipt_holds
finished_input-ok fs n thread new v there holds follows =
    let (receipt, is_dict, h1) = >>=-eq-ok (members_of v) _ holds in
    let (at, has_at, h2) = >>=-eq-ok (item "threadId" receipt) _ h1 in
    elim (Bool-cases (same at new)) [
      | inr other ↦ absurd (ground arith)
      | inl same_one ↦ elim (Result-cases (turn_item "status" receipt)) [
        | inr (e, missing) ↦ absurd (ground arith)
        | inl (status, has_status) ↦ (receipt, ground arith)
      ]
    ]
