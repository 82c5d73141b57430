-- ===== src/Rollover/Contexts.antt =====
-- What a context stands on: the record and the claim of its rollover.
use context_rollover_guard.Prelude.{
  ◌∙◌, ap, ◌>>◌, not, raise_if, >>=-eq-ok, sym, subst, ◌≡◌, inl, inr, String, eq_iff, Bool, true,
  Option, none, some, Result, ok, Bool-cases, arith, or_raise,
}
use context_rollover_guard.Errors.{transaction_error, Exc}
use context_rollover_guard.Session.{validate, SessionState, Platform}
use context_rollover_guard.Rollover.Effects.{Journal, Prepared}
use context_rollover_guard.Rollover.Checks.{validated, claimed_by, Site, Context, context}

validate-same : (p : Platform) (s t : SessionState) → validated (validate p s) ≡ ok t → t ≡ s
unfolding validate
validate-same p s t h = ground arith

claimed_by-eq : (o : Option String) (rid : String) → claimed_by o rid ≡ true → o ≡ some rid
claimed_by-eq none rid h = cc
claimed_by-eq (some r) rid h = ground (arith, eq_iff r rid)

binds-claim :
    (site : Site) (workspace thread : String) {A : Type 0} (rest : Result Exc A) (a : A)
    → (raise_if (not (claimed_by (site.claim workspace thread) site.rid)) transaction_error >> rest)
      ≡ ok a
    → (site.claim workspace thread ≡ some site.rid) × (rest ≡ ok a)
binds-claim site workspace thread rest a h =
    elim (Bool-cases (claimed_by (site.claim workspace thread) site.rid)) [
      | inl e ↦ (claimed_by-eq _ _ e, ground arith)
      | inr e ↦ ground arith
    ]

binds-rest :
    (b b' : Bool) (d c : Context)
    → (raise_if b transaction_error >> (raise_if b' transaction_error >> ok d)) ≡ ok c
    → c ≡ d
binds-rest b b' d c h = ground arith

pub context-claimed :
    (p : Platform) (site : Site) (j : Journal) (c : Context)
    → context p site j ≡ ok c
    → site.claim c.prepared.source.workspace_id c.prepared.source.thread_id ≡ some site.rid
unfolding context
context-claimed p site j c h =
    let (d, e, h1) = >>=-eq-ok (or_raise j.prepared transaction_error) _ h in
    let (s, f, h2) = >>=-eq-ok (validated (validate p d.source)) _ h1 in
    let (held, h3) = binds-claim site s.workspace_id s.thread_id _ c h2 in
    let (file, g, h4) = >>=-eq-ok (site.archive d.archive) _ h3 in
    let same_source = validate-same p d.source s f in
    let same_context = binds-rest _ _ _ c h4 in
    let same_prepared = ap (λ x. x.prepared) same_context in
    subst (λ x. site.claim x.workspace_id x.thread_id ≡ some site.rid)
      (same_source ∙ ap (λ x. x.source) (sym same_prepared)) held

recorded : (o : Option Prepared) (d : Prepared) → or_raise o transaction_error ≡ ok d → o ≡ some d
recorded none d h = absurd (ground arith)
recorded (some d') d h = ground arith

pub context-prepared :
    (p : Platform) (site : Site) (j : Journal) (c : Context)
    → context p site j ≡ ok c
    → j.prepared ≡ some c.prepared
unfolding context
context-prepared p site j c h =
    let (d, e, h1) = >>=-eq-ok (or_raise j.prepared transaction_error) _ h in
    let (s, f, h2) = >>=-eq-ok (validated (validate p d.source)) _ h1 in
    let (held, h3) = binds-claim site s.workspace_id s.thread_id _ c h2 in
    let (file, g, h4) = >>=-eq-ok (site.archive d.archive) _ h3 in
    let same_prepared = ap (λ x. x.prepared) (binds-rest _ _ _ c h4) in
    recorded j.prepared d e ∙ ap some (sym same_prepared)
