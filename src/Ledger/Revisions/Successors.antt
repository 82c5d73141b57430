-- ===== src/Ledger/Revisions/Successors.antt =====
-- Later revisions of a fact, and what the statements on facts keep of them.
use context_rollover_guard.Prelude.{
  on_bool, ℕ, ◌≤◌, String, ◌≡◌, refl, sym, ◌∙◌, subst, inl, inr, true, false, Option, none, some,
  List, [], ◌∷◌, arith, str_eq, Bool-cases,
}
use context_rollover_guard.Ledger.Canonical.{Reason, Fact, find_fact, update_fact, with_derived}

-- A later revision of a fact: the same series, time, scope and semantics.
pub record Follows (f g : Fact) : Type 0 where
  pub id : g.id ≡ f.id
  pub revision : f.revision ≤ g.revision
  pub series : g.series ≡ f.series
  pub at : g.at ≡ f.at
  pub scope : g.scope ≡ f.scope
  pub semantics : g.semantics ≡ f.semantics

pub Follows-refl : (f : Fact) → Follows f f
Follows-refl f = record {
  id = refl;
  revision = omega arith;
  series = refl;
  at = refl;
  scope = refl;
  semantics = refl;
}

pub Follows-trans : (f g h : Fact) → Follows f g → Follows g h → Follows f h
Follows-trans f g h a b = record {
  id = b.id ∙ a.id;
  revision = omega (arith, a.revision, b.revision);
  series = b.series ∙ a.series;
  at = b.at ∙ a.at;
  scope = b.scope ∙ a.scope;
  semantics = b.semantics ∙ a.semantics;
}

pub Follows-derived : (r : Option ℕ × Reason) (f : Fact) → Follows f (with_derived r f)
Follows-derived r f = record {
  id = refl;
  revision = omega arith;
  series = refl;
  at = refl;
  scope = refl;
  semantics = refl;
}

-- A fact is in a list, at a later revision or the same.
abbrev pub Kept : Fact → String → List Fact → Type 0
Kept f id facts = (g : Fact) × (find_fact id facts ≡ some g) × Follows f g

pub find_fact-same :
    (id : String) (x : Fact) (facts : List Fact)
    → str_eq x.id id ≡ true
    → find_fact id (x ∷ facts) ≡ some x
unfolding find_fact
find_fact-same id x facts h = ground arith

pub find_fact-other :
    (id : String) (x : Fact) (facts : List Fact)
    → str_eq x.id id ≡ false
    → find_fact id (x ∷ facts) ≡ find_fact id facts
unfolding find_fact
find_fact-other id x facts h = ground arith

pub some-eq : {x y : Fact} → some x ≡ some y → x ≡ y
some-eq h = ground arith

pub none-some : (f : Fact) → none ≡ some f → ⊥
none-some f h = cc

pub update_fact-Kept :
    (key : String) (u : Fact → Fact) (facts : List Fact)
    → ((f : Fact) → find_fact key facts ≡ some f → Follows f (u f))
    → (id : String) (f : Fact) → find_fact id facts ≡ some f
    → Kept f id (update_fact key u facts)
unfolding update_fact
update_fact-Kept key u [] steps id f h = (f, h, Follows-refl f)
update_fact-Kept key u (x ∷ facts) steps id f h =
    on_bool (Kept f id) (str_eq x.id key) _ _
      (λ hit.
        let step = steps x (find_fact-same key x facts hit) in
        elim (Bool-cases (str_eq x.id id)) [
          | inl here ↦
              let is_f : x ≡ f = some-eq (sym (find_fact-same id x facts here) ∙ h) in
              (
                u x,
                find_fact-same id (u x) facts (subst (λ t. str_eq t id ≡ true) (sym step.id) here),
                subst (λ y. Follows y (u x)) is_f step,
              )
          | inr there ↦ (
            f,
            find_fact-other id (u x) facts (subst (λ t. str_eq t id ≡ false) (sym step.id) there)
                ∙ sym (find_fact-other id x facts there)
                ∙ h,
            Follows-refl f,
          )
        ])
      (λ miss. elim (Bool-cases (str_eq x.id id)) [
        | inl here ↦ (
          f,
          find_fact-same id x _ here ∙ sym (find_fact-same id x facts here) ∙ h,
          Follows-refl f,
        )
        | inr there ↦
            let (g, found, follows) =
              update_fact-Kept key u facts (λ y k. steps y (find_fact-other key x facts miss ∙ k))
                id f (sym (find_fact-other id x facts there) ∙ h) in
            (g, find_fact-other id x _ there ∙ found, follows)
      ])

pub Kept-trans :
    (id : String) (f : Fact) (facts facts' : List Fact)
    → ((g : Fact) → find_fact id facts ≡ some g → Kept g id facts')
    → Kept f id facts
    → Kept f id facts'
Kept-trans id f facts facts' steps (g, found, follows) =
    let (h, found', follows') = steps g found in (h, found', Follows-trans f g h follows follows')
