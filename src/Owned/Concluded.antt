-- ===== src/Owned/Concluded.antt =====
-- The records of a completion that a reconciliation writes.
use context_rollover_guard.Owned.Opened.{open_input-AsksAt}
use context_rollover_guard.Owned.Written.{Kept-trans, install-new, numbers-install, install-Kept}
use context_rollover_guard.Session.{SessionState}
use context_rollover_guard.Owned.Events.{turn_item}
use context_rollover_guard.Settings.{item}
use context_rollover_guard.Owned.Calls.{lift-eq-returns, >>=-eq-returns}
use context_rollover_guard.Owned.Evidence.{Confirmed}
use context_rollover_guard.Owned.Reconcile.{Desk, RecoveryEnv}
use context_rollover_guard.Owned.Answer.{Stores, stored_state, Host}
use context_rollover_guard.Errors.{value_error, Exc}
use context_rollover_guard.Owned.Files.{lift}
use context_rollover_guard.Prelude.{raise_if-eq-ok}
use context_rollover_guard.Owned.Reconciled.{provenance, completion, keep_record, conclude}
use context_rollover_guard.Rollover.Effects.{Fate}
use context_rollover_guard.Owned.Resumable.{Fits, Kept}
use context_rollover_guard.Owned.Walk.{numbers}
use context_rollover_guard.Owned.Files.{
  install, Name, Files, find, completed, reconciled, input, route, returns,
}
use context_rollover_guard.Owned.Recovery.{
  Verdict, is_last, receipt_holds, thread_after, source_of, Scan, Query, on_input, scan, asks,
  ready_to_resume,
}
use context_rollover_guard.Prelude.{
  ℕ, suc, String, ◌≡◌, refl, sym, ap, ◌∙◌, subst, ◌⊎◌, inl, inr, Bool, true, not, Option, none,
  some, List, [], ◌∷◌, arith, eq_iff, ◌==◌, Result, ok, >>=-eq-ok, Result-cases, Bool-cases,
  Option-cases,
}
use context_rollover_guard.Json.{Json, Members, null, bool, int, real, str, arr, obj, get, same}

on_input-open :
    (fs : Files) (n : ℕ) (new : Json) (made : Members) (last : Bool) (rest : Result Exc Scan)
    (q : Query)
    → on_input fs n new made last rest ≡ ok (asks q)
    → (rest ≡ ok (asks q)) ⊎ (find (input q.number completed) fs ≡ none)
unfolding on_input
on_input-open fs n new made last rest q h = elim (Option-cases (find (input n completed) fs)) [
  | inr (v, there) ↦ elim (Result-cases (receipt_holds new v)) [
    | inr (e, bad) ↦ absurd (ground arith)
    | inl (holds, receipt) ↦ elim (Bool-cases holds) [
      | inr fails ↦ absurd (ground arith)
      | inl good ↦ inl (ground arith)
    ]
  ]
  | inl absent ↦ elim (Bool-cases last) [
    | inr more ↦ absurd (ground arith)
    | inl ends ↦
        let (same_number, at) = open_input-AsksAt fs n new made (asks q) (ground arith) in
        inr (subst (λ i. find (input i completed) fs ≡ none) (sym same_number) absent)
  ]
]

-- The open input of a scan has no completion.
pub asks-open :
    (fs : Files) (index : ℕ) (thread : Json) (ns : List ℕ) (q : Query)
    → scan fs index thread ns ≡ ok (asks q)
    → find (input q.number completed) fs ≡ none
unfolding scan
asks-open fs index thread [] q h = absurd (ground arith)
asks-open fs index thread (n ∷ ns) q h =
    let (numbered, h1) = raise_if-eq-ok (not (n == index)) value_error _ h in
    let (made, _, h2) = >>=-eq-ok (source_of fs n thread) _ h1 in
    let (after, follows, h3) = >>=-eq-ok (thread_after thread (find (input n route) fs)) _ h2 in
    elim (Option-cases after) [
      | inl broken ↦ absurd (ground arith)
      | inr (new, continues) ↦
          elim (on_input-open fs n new made (is_last ns) (scan fs (suc index) new ns) q
            (ground arith)) [
              | inl goes ↦ asks-open fs (suc index) new ns q goes
              | inr absent ↦ absent
            ]
    ]

pub stored_state-text :
    (t : Host) (stores : Stores) (thread : Json) (o : Option SessionState)
    → stored_state t stores thread ≡ ok o
    → (x : String) × (thread ≡ str x)
unfolding stored_state
stored_state-text t stores (str x) o h = (x, refl)
stored_state-text t stores null o h = absurd (ground arith)
stored_state-text t stores (bool b) o h = absurd (ground arith)
stored_state-text t stores (int n) o h = absurd (ground arith)
stored_state-text t stores (real n d) o h = absurd (ground arith)
stored_state-text t stores (arr xs) o h = absurd (ground arith)
stored_state-text t stores (obj m) o h = absurd (ground arith)

pub same-str : (x : String) → same (str x) (str x) ≡ true
unfolding same
same-str x = (eq_iff x x).1 refl

-- The receipt that a reconciliation writes holds.
pub completion-holds :
    (thread : Json) (x : String) (turn : Members) (status : Json)
    → thread ≡ str x
    → item "status" turn ≡ ok status
    → same status (str "completed") ≡ true
    → receipt_holds thread (completion thread turn) ≡ ok true
unfolding completion receipt_holds turn_item get
completion-holds thread x turn status is_text has_status is_complete =
    let same_one : same thread thread ≡ true =
      subst (λ y. same y y ≡ true) (sym is_text) (same-str x) in
    ground arith

pub keep_record-install :
    (t : Host) (fate : Fate) (n : Name) (v : Json) (d d' : Desk)
    → keep_record t fate n v d ≡ (returns tt, d')
    → install t.codec fate n v d.files ≡ (returns tt, d'.files)
unfolding keep_record
keep_record-install t fate n v d d' h = ap (λ r. (r.0, r.1.files)) h

pub conclude-Leaves :
    (t : Host) (env : RecoveryEnv) (q : Query) (response turn : Members) (d d' : Desk) (v : Verdict)
    (last : Json)
    → find (input q.number completed) d.files ≡ none
    → Confirmed t env.stores q response turn
    → conclude t env q (ok turn) d ≡ (returns v, d')
    → v ≡ ready_to_resume last
    → Kept d.files d'.files × (numbers d'.files ≡ numbers d.files) × Fits d'.files (asks q) last
unfolding conclude
conclude-Leaves t env q response turn d d' v last absent confirmed h ready =
    let (done, d1, first, h1) =
      >>=-eq-returns
        (keep_record t env.completed_write (input q.number completed) (completion q.thread turn)) _
        d h in
    let (id, d2, looked, h2) = >>=-eq-returns (lift (item "id" turn)) _ d1 h1 in
    let (has_id, same_desk) = lift-eq-returns (item "id" turn) d1 looked in
    let (done', d3, second, h3) =
      >>=-eq-returns
        (keep_record t env.reconciled_write (input q.number reconciled) (provenance id)) _ d2 h2 in
    let e1 =
      keep_record-install t env.completed_write (input q.number completed)
        (completion q.thread turn) d d1 first in
    let e2 =
      keep_record-install t env.reconciled_write (input q.number reconciled) (provenance id) d2 d3
        second in
    let same_end : d3 ≡ d' = ap (λ r. r.1) h3 in
    let at : q.thread ≡ last = ground arith in
    let f1 : (install t.codec env.completed_write (input q.number completed)
          (completion q.thread turn) d.files).1
        ≡ d1.files =
      ap (λ r. r.1) e1 in
    let f2 : (install t.codec env.reconciled_write (input q.number reconciled) (provenance id)
          d2.files).1
        ≡ d'.files =
      ap (λ r. r.1) e2 ∙ ap (λ x. x.files) same_end in
    let k1 : Kept d.files d1.files = subst (Kept d.files) f1 (
      install-Kept t.codec env.completed_write q.number completed (completion q.thread turn) d.files
        refl) in
    let k2 : Kept d2.files d'.files = subst (Kept d2.files) f2 (
      install-Kept t.codec env.reconciled_write q.number reconciled (provenance id) d2.files
        refl) in
    let k2' : Kept d1.files d'.files =
      subst (λ x. Kept x d'.files) (sym (ap (λ x. x.files) same_desk)) k2 in
    let n1 : numbers d1.files ≡ numbers d.files =
      sym (ap numbers f1)
      ∙ numbers-install t.codec env.completed_write q.number completed (completion q.thread turn)
          d.files refl in
    let n2 : numbers d'.files ≡ numbers d2.files =
      sym (ap numbers f2)
      ∙ numbers-install t.codec env.reconciled_write q.number reconciled (provenance id) d2.files
          refl in
    let there =
      install-new t.codec env.completed_write (input q.number completed) (completion q.thread turn)
        d.files d1.files absent e1 in
    let (x, is_text) =
      stored_state-text t env.stores q.thread (some confirmed.state) confirmed.stored in
    (
      Kept-trans k1 k2',
      n2 ∙ (ap (λ x. numbers x.files) (sym same_desk) ∙ n1),
      (
        at,
        (
          completion q.thread turn,
          k2'.grows (input q.number completed) (completion q.thread turn) there,
          completion-holds q.thread x turn confirmed.status is_text confirmed.has_status
              confirmed.is_complete,
        ),
      ),
    )
