-- ===== src/Owned/Resumable.antt =====
-- A run that was reconciled can be resumed: its inputs pass the loop of `resume`.
use context_rollover_guard.Owned.Opened.{
  open_input-AsksAt, AsksAt, finished_input-ok, thread_after-routed,
}
use context_rollover_guard.Owned.Recovery.{invalid_completion, unfinished_not_last}
use context_rollover_guard.Owned.Kept.{Grows}
use context_rollover_guard.Prelude.{raise_if-eq-ok}
use context_rollover_guard.Prelude.{raise_if-eq-ok}
use context_rollover_guard.Owned.Walk.{walk, routed, finished_input}
use context_rollover_guard.Errors.{value_error, Exc}
use context_rollover_guard.Owned.Files.{find, Files, completed, route, input}
use context_rollover_guard.Owned.Recovery.{
  source_of, is_last, on_input, scan, Reason, receipt_holds, thread_after, Scan, settled, asks,
  blocked, transaction_unreconciled, ready_to_resume,
}
use context_rollover_guard.Prelude.{
  ℕ, suc, ◌≡◌, refl, sym, ◌∙◌, subst, ◌⊎◌, inl, inr, true, not, Option, some, List, [], ◌∷◌, arith,
  ◌==◌, Result, ok, >>=-eq-ok, Result-cases, Bool-cases, Option-cases,
}
use context_rollover_guard.Json.{Json, Members}

-- What a reconciliation leaves for `resume`: every record, every route, and a receipt for the input
-- that was open.
pub record Kept (fs fs' : Files) : Type 0 where
  pub grows : Grows fs fs'
  pub routes : (n : ℕ) → find (input n route) fs' ≡ find (input n route) fs

abbrev pub Fits : Files → Scan → Json → Type 0
Fits fs' (settled v) last = v ≡ ready_to_resume last
Fits fs' (asks q) last =
    (q.thread ≡ last)
    × ((v : Json) × (find (input q.number completed) fs' ≡ some v)
        × (receipt_holds q.thread v ≡ ok true))

no_fit :
    (fs' : Files) (r : Reason) (s : Scan) (last : Json)
    → ◌≡◌ {A = Result Exc Scan} (ok (settled (blocked r))) (ok s)
    → ¬ (Fits fs' s last)
no_fit fs' r s last h fits =
    let same_scan : settled (blocked r) ≡ s = ground arith in
    let fits' : blocked r ≡ ready_to_resume last =
      subst (λ x. Fits fs' x last) (sym same_scan) fits in
    cc

is_last-eq : (ns : List ℕ) → is_last ns ≡ true → ns ≡ []
is_last-eq [] h = refl
is_last-eq (n ∷ ns) h = cc

asked-walk :
    (fs' : Files) (n : ℕ) (thread new last : Json) (s : Scan)
    → routed thread (find (input n route) fs') ≡ ok new
    → AsksAt n new s
    → Fits fs' s last
    → ((receipt : Members) × (finished_input fs' n thread ≡ ok (new, receipt))) × (new ≡ last)
asked-walk fs' n thread new last (settled v) follows (r, e) fits = absurd (ground arith)
asked-walk fs' n thread new last (asks q) follows (same_number, same_one) (at, (v, there, holds)) =
    (
      finished_input-ok fs' n thread new v
          (subst (λ i. find (input i completed) fs' ≡ some v) same_number there)
          (subst (λ x. receipt_holds x v ≡ ok true) same_one holds) follows,
      sym same_one ∙ at,
    )

-- One input: what the scan found of it, and what `resume` asks.
input-walk :
    (fs fs' : Files) (n : ℕ) (thread new last : Json) (made : Members) (ns : List ℕ)
    (rest : Result Exc Scan) (s : Scan)
    → Kept fs fs'
    → routed thread (find (input n route) fs) ≡ ok new
    → on_input fs n new made (is_last ns) rest ≡ ok s
    → Fits fs' s last
    → ((receipt : Members) × (finished_input fs' n thread ≡ ok (new, receipt)))
      × ((rest ≡ ok s) ⊎ ((ns ≡ []) × (new ≡ last)))
unfolding on_input
input-walk fs fs' n thread new last made ns rest s kept follows h fits =
    let follows' : routed thread (find (input n route) fs') ≡ ok new =
      subst (λ x. routed thread x ≡ ok new) (sym (kept.routes n)) follows in
    elim (Option-cases (find (input n completed) fs)) [
      | inr (v, there) ↦ elim (Result-cases (receipt_holds new v)) [
        | inr (e, bad) ↦ absurd (ground arith)
        | inl (holds, receipt) ↦ elim (Bool-cases holds) [
          | inr fails ↦ absurd (no_fit fs' invalid_completion s last (ground arith) fits)
          | inl good ↦ (
            finished_input-ok fs' n thread new v (kept.grows (input n completed) v there)
                (ground arith) follows',
            inl (ground arith),
          )
        ]
      ]
      | inl absent ↦ elim (Bool-cases (is_last ns)) [
        | inr more ↦ absurd (no_fit fs' unfinished_not_last s last (ground arith) fits)
        | inl ends ↦
            let (finished, at) =
              asked-walk fs' n thread new last s follows'
                (open_input-AsksAt fs n new made s (ground arith)) fits in
            (finished, inr (is_last-eq ns ends, at))
      ]
    ]

-- The inputs of the scan pass the loop of `resume` in the files that fit it.
pub scan-walk :
    (fs fs' : Files) (index : ℕ) (thread last : Json) (ns : List ℕ) (s : Scan)
    → Kept fs fs'
    → scan fs index thread ns ≡ ok s
    → Fits fs' s last
    → (before : Option Members)
    → (after : Option Members) × (walk fs' index thread before ns ≡ ok (last, after))
unfolding scan walk
scan-walk fs fs' index thread last [] s kept h fits before =
    let same_scan : settled (ready_to_resume thread) ≡ s = ground arith in
    let fits' : Fits fs' (settled (ready_to_resume thread)) last =
      subst (λ x. Fits fs' x last) (sym same_scan) fits in
    (before, ground arith)
scan-walk fs fs' index thread last (n ∷ ns) s kept h fits before =
    let (numbered, h1) = raise_if-eq-ok (not (n == index)) value_error _ h in
    let (made, _, h2) = >>=-eq-ok (source_of fs n thread) _ h1 in
    let (after, follows, h3) = >>=-eq-ok (thread_after thread (find (input n route) fs)) _ h2 in
    elim (Option-cases after) [
      | inl broken ↦ absurd (no_fit fs' transaction_unreconciled s last (ground arith) fits)
      | inr (new, continues) ↦
          let follows' : thread_after thread (find (input n route) fs) ≡ ok (some new) =
            ground arith in
          let (finished, more) =
            input-walk fs fs' n thread new last made ns (scan fs (suc index) new ns) s kept
              (thread_after-routed thread new (find (input n route) fs) follows') (ground arith)
              fits in
          elim more [
            | inl goes ↦
                let (receipt, passes) = finished in
                let (after', rest) =
                  scan-walk fs fs' (suc index) new last ns s kept goes fits (some receipt) in
                (after', ground arith)
            | inr (ends, at) ↦
                let (receipt, passes) = finished in
                let tail : walk fs' (suc index) new (some receipt) ns ≡ ok (last, some receipt) =
                  subst (λ x. walk fs' (suc index) new (some receipt) x ≡ ok (last, some receipt))
                    (sym ends) (ground arith) in
                (some receipt, ground arith)
          ]
    ]
