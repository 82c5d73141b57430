-- ===== src/Ledger/Replay.antt =====
-- An event that is added again, and usage over adjacent intervals.
use context_rollover_guard.Prelude.{
  raise_if-eq-ok, if-eq-ok, String, ◌≡◌, refl, sym, ap, ◌∙◌, subst, inl, inr, true, not, Option,
  none, some, ◌∷◌, arith, str_eq, eq_iff, ok, ◌>>=◌, >>=-eq-ok,
}
use context_rollover_guard.Json.{Members, obj}
use context_rollover_guard.Ledger.Legacy.{
  Semantics, Clock, Row, Tables, checked_event, event_id_of, find, insert, placed, all_storable,
  fields, select, all_storable, add, projected,
}

str_eq_refl : (s : String) → str_eq s s ≡ true
str_eq_refl s = ground (arith, eq_iff s s)

-- After an insertion the row of the event is there, with its hash.
placed-stored :
    (c : Clock) (id hash : String) (event : Members) (s : Semantics) (o : Option Row)
    (t t' : Tables) (id' : String)
    → find id t.rows ≡ o
    → placed c id hash event s o t ≡ ok (id', t')
    → (id' ≡ id)
      × ((row : Row) × (find id t'.rows ≡ some row) × (str_eq row.payload_hash hash ≡ true))
unfolding placed find
placed-stored c id hash event s (some row) t t' id' old h =
    elim (if-eq-ok (str_eq row.payload_hash hash) _ _ h) [
      | inl (same_hash, kept) ↦ (ground arith, (row, ground arith, same_hash))
      | inr (other, bad) ↦ cc
    ]
placed-stored c id hash event s none t t' id' new h =
    let (made, m, h1) = >>=-eq-ok (projected c id event s t.counters) _ h in
    let (fits, stored) = raise_if-eq-ok (not (all_storable (select fields made.0))) _ _ h1 in
    let row : Row = record { event_id = id; payload_hash = hash; columns = select fields made.0 } in
    let is_first : find id (row ∷ t.rows) ≡ some row = ground (arith, str_eq_refl id) in
    let new : Tables = record { rows = row ∷ t.rows; counters = made.1 } in
    let same_tables : new ≡ t' = ground arith in
    (
      ground arith,
      (row, subst (λ u. find id u.rows ≡ some row) same_tables is_first, str_eq_refl hash),
    )

insert-replay :
    (c : Clock) (id hash : String) (event : Members) (s : Semantics) (t t' : Tables) (id' : String)
    → insert c id hash event s t ≡ ok (id', t')
    → insert c id hash event s t' ≡ ok (id', t')
unfolding insert placed
insert-replay c id hash event s t t' id' h =
    let (same_id, stored) = placed-stored c id hash event s (find id t.rows) t t' id' refl h in
    let (row, there, same_hash) = stored in
    subst (λ o. placed c id hash event s o t' ≡ ok (id', t')) (sym there) (ground arith)

-- Adding an event again, with the same content, gives the same identity and changes nothing.
pub add-replay :
    (c : Clock) (event : Members) (t t' : Tables) (id : String)
    → add c event t ≡ ok (id, t')
    → add c event t' ≡ ok (id, t')
unfolding add
add-replay c event t t' id h =
    let (checked, v, h1) = >>=-eq-ok (checked_event c event) _ h in
    ap
      (λ r.
        r >>= λ made. insert c (event_id_of c made.0) (c.identity (obj made.0)) made.0 made.1 t')
      v
    ∙ insert-replay c _ _ checked.0 checked.1 t t' id h1
