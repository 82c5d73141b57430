-- ===== src/Ledger/Revisions.antt =====
-- What adding an observation keeps: the observations that are there, and the identity of each fact.
mod Successors
pub use Successors.{
  Follows, Follows-refl, Follows-trans, Follows-derived, Kept, find_fact-same, find_fact-other,
  some-eq, none-some, update_fact-Kept, Kept-trans,
}
use context_rollover_guard.Numbers.{largest}
use context_rollover_guard.Errors.{storage_error, value_error}
use context_rollover_guard.Prelude.{
  if-eq-ok, >>-eq-ok, raise_if-eq-ok, ltb→lt, on_bool, ℕ, zero, suc, ◌+◌, ◌-◌, ◌*◌, ◌/◌, ◌%◌, ◌≤◌,
  ◌<◌, min, max, String, str_append, ◌≡◌, refl, sym, ap, ◌∙◌, subst, ◌≢◌, ◌↔◌, ◌⊎◌, inl, inr, Bool,
  true, false, ◌&&◌, ◌||◌, not, Option, none, some, List, [], ◌∷◌, ◌++◌, map, arith, str_eq, eq_iff,
  ltb, leb, ◌==◌, if◌then◌else◌, is_some, length, get_elem?, take, drop, any, all, All, Result, ok,
  err, ◌>>=◌, ◌>>◌, raise_if, or_raise, >>=-eq-ok, Result-cases, Bool-cases, Option-cases,
}
use context_rollover_guard.Json.{
  Json, Items, Members, null, bool, int, real, str, arr, obj, nil, cons, end, member, get, same,
}
use context_rollover_guard.Prelude.Int.{
  ℤ, pos, negsuc, sub_ℕ, ltb_ℤ, ◌+ℤ◌, ◌-ℤ◌, ◌≤ℤ◌, pos_part, neg_part,
}
use context_rollover_guard.Ledger.Canonical.{
  Reason, Ids, Seen, Fact, Store, find_seen, find_fact, update_fact, previous, following, derived,
  with_derived, derive, merge, put_fact, raw_of, seen_of, fact_of, conflicts, is_newest, moves,
  with_fact, too_large, put_newest, revise, add_new, add, add_all, validated, ingest, moved,
  observation_id_of, fact_id_of, check_cursor, Import, digest_of, limit, unpaired,
}

module _ (d : Ids) where
  derive-Kept :
      (o : Option Fact) (facts : List Fact) (id : String) (f : Fact)
      → find_fact id facts ≡ some f
      → Kept f id (derive d o facts)
  unfolding derive
  derive-Kept none facts id f h = (f, h, Follows-refl f)
  derive-Kept (some g) facts id f h =
      update_fact-Kept g.id (with_derived (derived d facts g)) facts
        (λ x found. Follows-derived (derived d facts g) x) id f h

  put_fact-Kept :
      (prior : Option Fact) (new : Fact) (facts : List Fact) (id : String) (f : Fact)
      → find_fact new.id facts ≡ prior
      → is_newest new prior ≡ true
      → find_fact id facts ≡ some f
      → Kept f id (put_fact prior new facts)
  unfolding put_fact
  put_fact-Kept none new facts id f at newest h = elim (Bool-cases (str_eq new.id id)) [
    | inl here ↦
        let same_id : new.id ≡ id = ground (arith, eq_iff new.id id) in
        absurd (none-some f (sym at ∙ ap (λ t. find_fact t facts) same_id ∙ h))
    | inr there ↦ (f, find_fact-other id new facts there ∙ h, Follows-refl f)
  ]
  put_fact-Kept (some old) new facts id f at newest h =
      update_fact-Kept new.id (merge new) facts
        (λ x found. record {
          id = refl;
          revision = omega (
            arith,
            ltb→lt old.revision new.revision newest,
            ap (λ (y : Fact). y.revision) (some-eq (sym at ∙ found)),
          );
          series = refl;
          at = refl;
          scope = refl;
          semantics = refl;
        })
        id f h

  with_fact-Kept :
      (new : Fact) (facts : List Fact) (id : String) (f : Fact)
      → is_newest new (find_fact new.id facts) ≡ true
      → find_fact id facts ≡ some f
      → Kept f id (with_fact d (find_fact new.id facts) new facts)
  unfolding with_fact
  with_fact-Kept new facts id f newest h = Kept-trans id f _ _ (derive-Kept _ _ id) (
      Kept-trans id f _ _ (derive-Kept _ _ id)
        (put_fact-Kept (find_fact new.id facts) new facts id f refl newest h))

  -- What `add` keeps: an observation as it is, and a fact at a later revision or the same.
  record Grows (id fact_id : String) (o : Seen) (f : Fact) (t : Store) : Type 0 where
    observed : find_seen id t.seen ≡ some o
    kept : Kept f fact_id t.facts

  seen-Kept :
      (x : Seen) (seen : List Seen) (id : String) (o : Seen)
      → find_seen x.id seen ≡ none
      → find_seen id seen ≡ some o
      → find_seen id (x ∷ seen) ≡ some o
  unfolding find_seen
  seen-Kept x seen id o absent there = elim (Bool-cases (str_eq x.id id)) [
    | inl here ↦
        let same_id : x.id ≡ id = ground (arith, eq_iff x.id id) in
        let both = ap (λ t. find_seen t seen) same_id in cc
    | inr other ↦ ground arith
  ]

  put_newest-Grows :
      (new : Fact) (s t : Store) (id fact_id : String) (o : Seen) (f : Fact)
      → is_newest new (find_fact new.id s.facts) ≡ true
      → put_newest d (find_fact new.id s.facts) new s ≡ ok t
      → find_seen id s.seen ≡ some o
      → find_fact fact_id s.facts ≡ some f
      → Grows id fact_id o f t
  unfolding put_newest
  put_newest-Grows new s t id fact_id o f newest h so sf =
      let prior = find_fact new.id s.facts in
      let (still, h1) = raise_if-eq-ok (moves new prior) value_error _ h in
      let (small, h2) = raise_if-eq-ok (too_large new.raw_total) storage_error _ h1 in
      let same_one : record s { facts = with_fact d prior new s.facts } ≡ t = ground arith in
      subst (Grows id fact_id o f) same_one
        (record { observed = so; kept = with_fact-Kept new s.facts fact_id f newest sf })

  revise-Grows :
      (new : Fact) (row : Members) (s t : Store) (id fact_id : String) (o : Seen) (f : Fact)
      → find_seen (observation_id_of d row) s.seen ≡ none
      → revise d (find_fact new.id s.facts) new row s ≡ ok t
      → find_seen id s.seen ≡ some o
      → find_fact fact_id s.facts ≡ some f
      → Grows id fact_id o f t
  unfolding revise
  revise-Grows new row s t id fact_id o f absent h so sf =
      let prior = find_fact new.id s.facts in
      let recorded : Store = record s { seen = seen_of d row ∷ s.seen } in
      let (agreed, h1) = raise_if-eq-ok (conflicts new prior) value_error _ h in
      let (small, h2) = raise_if-eq-ok (ltb largest new.revision) storage_error _ h1 in
      let observed = seen-Kept (seen_of d row) s.seen id o absent so in
      elim (if-eq-ok (is_newest new prior) _ _ h2) [
        | inl (newest, made) ↦
            put_newest-Grows new recorded t id fact_id o f newest made observed sf
        | inr (older, made) ↦
            let same_one : recorded ≡ t = ground arith in
            subst (Grows id fact_id o f) same_one
              (record { observed = observed; kept = (f, sf, Follows-refl f) })
      ]

  add_new-Grows :
      (seen : Option Seen) (row : Members) (s t : Store) (id fact_id : String) (o : Seen) (f : Fact)
      → find_seen (observation_id_of d row) s.seen ≡ seen
      → add_new d seen row s ≡ ok t
      → find_seen id s.seen ≡ some o
      → find_fact fact_id s.facts ≡ some f
      → Grows id fact_id o f t
  unfolding add_new
  add_new-Grows none row s t id fact_id o f at h so sf =
      let (raw, r, h1) = >>=-eq-ok (raw_of row) _ h in
      revise-Grows (fact_of d row raw) row s t id fact_id o f at h1 so sf
  add_new-Grows (some old) row s t id fact_id o f at h so sf =
      let same_one : s ≡ t = ground arith in
      subst (Grows id fact_id o f) same_one
        (record { observed = so; kept = (f, sf, Follows-refl f) })

  add_all-Grows :
      (rows : List Members) (s t : Store) (id fact_id : String) (o : Seen) (f : Fact)
      → add_all d rows s ≡ ok t
      → find_seen id s.seen ≡ some o
      → find_fact fact_id s.facts ≡ some f
      → Grows id fact_id o f t
  unfolding add_all add
  add_all-Grows [] s t id fact_id o f h so sf =
      let same_one : s ≡ t = ground arith in
      subst (Grows id fact_id o f) same_one
        (record { observed = so; kept = (f, sf, Follows-refl f) })
  add_all-Grows (row ∷ rows) s t id fact_id o f h so sf =
      let (u, first, h1) =
        >>=-eq-ok (add_new d (find_seen (observation_id_of d row) s.seen) row s) _ h in
      let a = add_new-Grows _ row s u id fact_id o f refl first so sf in
      let (g, found, follows) = a.kept in
      let b = add_all-Grows rows u t id fact_id o g h1 a.observed found in
      let (g', found', follows') = b.kept in
      record { observed = b.observed; kept = (g', found', Follows-trans f g g' follows follows') }

moved-Kept :
    (source : Option String) (v : Option Json) (s : Store) (id fact_id : String) (o : Seen)
    (f : Fact)
    → find_seen id s.seen ≡ some o
    → Kept f fact_id s.facts
    → (find_seen id (moved source v s).seen ≡ some o) × Kept f fact_id (moved source v s).facts
unfolding moved
moved-Kept none v s id fact_id o f a b = (a, b)
moved-Kept (some source) none s id fact_id o f a b = (a, b)
moved-Kept (some source) (some v) s id fact_id o f a b = (a, b)

-- An import that is committed keeps each stored observation as it is, and each fact in its series,
-- scope and semantics, at its time, and at its revision or a later one.
pub ingest-Kept :
    (d : Ids) (rows : List Members) (i : Import) (s t : Store) (id fact_id : String) (o : Seen)
    (f : Fact)
    → ingest d rows i s ≡ ok t
    → find_seen id s.seen ≡ some o
    → find_fact fact_id s.facts ≡ some f
    → (find_seen id t.seen ≡ some o) × Kept f fact_id t.facts
unfolding ingest
ingest-Kept d rows i s t id fact_id o f h so sf =
    let (valid, v, h1) = >>=-eq-ok (validated d rows) _ h in
    let (short, h2) = raise_if-eq-ok (ltb limit (length valid)) value_error _ h1 in
    let (paired, h3) = raise_if-eq-ok (unpaired i.source i.next_cursor) value_error _ h2 in
    let (fresh, h4) = >>-eq-ok (check_cursor i i.source s) _ h3 in
    let (u, added, h5) = >>=-eq-ok (add_all d valid s) _ h4 in
    let a = add_all-Grows d valid s u id fact_id o f added so sf in
    let same_one : moved i.source i.next_cursor u ≡ t = ground arith in
    subst (λ w. (find_seen id w.seen ≡ some o) × Kept f fact_id w.facts) same_one
      (moved-Kept i.source i.next_cursor u id fact_id o f a.observed a.kept)
