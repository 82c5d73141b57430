-- ===== src/Ledger/Again.antt =====
-- An observation that the canonical ledger is given again.
use context_rollover_guard.Numbers.{largest}
use context_rollover_guard.Errors.{Exc, storage_error, value_error}
use context_rollover_guard.Prelude.{
  raise_if-eq-ok, if-eq-ok, ◌≡◌, refl, sym, subst, inl, inr, true, Option, none, some, List, ◌∷◌,
  arith, str_eq, eq_iff, ltb, Result, ok, >>=-eq-ok,
}
use context_rollover_guard.Json.{Members}
use context_rollover_guard.Ledger.Canonical.{
  Ids, Seen, Fact, Store, find_seen, raw_of, seen_of, fact_of, conflicts, is_newest, moves,
  with_fact, too_large, put_newest, revise, add_new, add, observation_id_of, digest_of,
}

find_seen-first : (x : Seen) (seen : List Seen) → find_seen x.id (x ∷ seen) ≡ some x
unfolding find_seen
find_seen-first x seen = ground (arith, eq_iff x.id x.id)

revise-seen :
    (d : Ids) (prior : Option Fact) (new : Fact) (row : Members) (s t : Store)
    → revise d prior new row s ≡ ok t
    → find_seen (observation_id_of d row) t.seen ≡ some (seen_of d row)
unfolding revise put_newest
revise-seen d prior new row s t h =
    let recorded : Store = record s { seen = seen_of d row ∷ s.seen } in
    let first = find_seen-first (seen_of d row) s.seen in
    let (agreed, h1) = raise_if-eq-ok (conflicts new prior) value_error _ h in
    let (small, h2) = raise_if-eq-ok (ltb largest new.revision) storage_error _ h1 in
    elim (if-eq-ok (is_newest new prior) _ _ h2) [
      | inl (newest, made) ↦
          let (still, h3) = raise_if-eq-ok (moves new prior) value_error _ made in
          let (fits, h4) = raise_if-eq-ok (too_large new.raw_total) storage_error _ h3 in
          let same_one : record recorded { facts = with_fact d prior new s.facts } ≡ t =
            ground arith in
          subst (λ w. find_seen (observation_id_of d row) w.seen ≡ some (seen_of d row)) same_one
            first
      | inr (older, made) ↦
          let same_one : recorded ≡ t = ground arith in
          subst (λ w. find_seen (observation_id_of d row) w.seen ≡ some (seen_of d row)) same_one
            first
    ]

ok-eq : (r : Result Exc Store) (s t : Store) → r ≡ ok s → r ≡ ok t → s ≡ t
ok-eq r s t a b = ground arith

-- After `add` the observation is there, with the hash of its content.
add_new-seen :
    (d : Ids) (seen : Option Seen) (row : Members) (s t : Store)
    → find_seen (observation_id_of d row) s.seen ≡ seen
    → add_new d seen row s ≡ ok t
    → (x : Seen) × (find_seen (observation_id_of d row) t.seen ≡ some x)
      × (str_eq x.hash (digest_of d row) ≡ true)
unfolding add_new
add_new-seen d none row s t at h =
    let (raw, r, h1) = >>=-eq-ok (raw_of row) _ h in
    (
      seen_of d row,
      revise-seen d _ (fact_of d row raw) row s t h1,
      ground (arith, eq_iff (digest_of d row) (digest_of d row)),
    )
add_new-seen d (some old) row s t at h = elim (if-eq-ok (str_eq old.hash (digest_of d row)) _ _ h) [
  | inl (same_hash, kept) ↦ (
    old,
    subst (λ (w : Store). find_seen (observation_id_of d row) w.seen ≡ some old)
        (ok-eq (ok s) s t refl kept) at,
    same_hash,
  )
  | inr (other, bad) ↦ cc
]

-- An observation that the canonical ledger has just added is accepted again and changes nothing.
pub add-again : (d : Ids) (row : Members) (s t : Store) → add d row s ≡ ok t → add d row t ≡ ok t
unfolding add add_new
add-again d row s t h =
    let (x, there, same_hash) =
      add_new-seen d (find_seen (observation_id_of d row) s.seen) row s t refl h in
    subst (λ o. add_new d o row t ≡ ok t) (sym there) (ground arith)
