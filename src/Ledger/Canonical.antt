-- ===== src/Ledger/Canonical.antt =====
-- The canonical ledger (crg/ledger.py, `CanonicalLedger`): immutable observations, the latest
-- revision of each logical fact with its derived increment, and the cursors of imports. A
-- transaction is one function of the store, which is kept where it raises.
mod Facts
pub use Facts.{
  Ids, Reason, Seen, Fact, Store, value_of, text_in, number_in, scope_of, observation_id_of,
  fact_id_of, digest_of, semantics_of, series_of, earlier, is_zero, of_request, with_derived, merge,
  raw_of, seen_of, fact_of, conflicts, is_newest, moves, request_increment,
  separate_semantic_object, left_censored_baseline, verified_zero_origin, ambiguous_same_time,
  unknown_counter, counter_correction, observed_delta, unknown_scope_or_aggregation, underived,
}
unfoldable pub use Facts.{
  content, find_seen, find_fact, update_fact, previous, following, growth, since, derived, derive,
  put_fact, with_fact,
}
use context_rollover_guard.Prelude.{
  ℕ, zero, suc, ◌+◌, ◌-◌, ◌*◌, ◌/◌, ◌%◌, ◌≤◌, ◌<◌, min, max, String, str_append, ◌≡◌, refl, sym, ap,
  ◌∙◌, subst, ◌≢◌, ◌↔◌, ◌⊎◌, inl, inr, Bool, true, false, ◌&&◌, ◌||◌, not, Option, none, some, List,
  [], ◌∷◌, ◌++◌, map, arith, str_eq, eq_iff, ltb, leb, ◌==◌, if◌then◌else◌, is_some, length,
  get_elem?, take, drop, any, all, All, Result, ok, err, ◌>>=◌, ◌>>◌, raise_if, or_raise, >>=-eq-ok,
  Result-cases, Bool-cases, Option-cases,
}
use context_rollover_guard.Json.{
  Json, Items, Members, null, bool, int, real, str, arr, obj, nil, cons, end, member, get, same,
}
use context_rollover_guard.Prelude.Int.{
  ℤ, pos, negsuc, sub_ℕ, ltb_ℤ, ◌+ℤ◌, ◌-ℤ◌, ◌≤ℤ◌, pos_part, neg_part,
}
use context_rollover_guard.Errors.{Exc, value_error, storage_error}
use context_rollover_guard.Numbers.{largest}
use context_rollover_guard.Ledger.Legacy.{known, summed}
use context_rollover_guard.Events.{Instants, observation, exact_usage, count_of, data_in, is_str}

-- SQLite's integers have 64 bits.
abbrev pub too_large : Option ℕ → Bool
too_large none = false
too_large (some n) = ltb largest n

-- The new revision of the fact, where it is the newest.
unfoldable pub put_newest : Ids → Option Fact → Fact → Store → Result Exc Store
put_newest d prior f s = do
  raise_if (moves f prior) value_error
  raise_if (too_large f.raw_total) storage_error
  ok (record s { facts = with_fact d prior f s.facts })

-- `_add` of an observation that is new, by the fact that is there
unfoldable pub revise : Ids → Option Fact → Fact → Members → Store → Result Exc Store
revise d prior f row s = do
  raise_if (conflicts f prior) value_error
  raise_if (ltb largest f.revision) storage_error
  if is_newest f prior
      then put_newest d prior f (record s { seen = seen_of d row ∷ s.seen })
      else ok (record s { seen = seen_of d row ∷ s.seen })

unfoldable pub add_new : Ids → Option Seen → Members → Store → Result Exc Store
add_new d (some old) row s = if str_eq old.hash (digest_of d row) then ok s else err value_error
add_new d none row s = do
  raw ← raw_of row
  revise d (find_fact (fact_id_of d row) s.facts) (fact_of d row raw) row s

-- CanonicalLedger._add
unfoldable pub add : Ids → Members → Store → Result Exc Store
add d row s = add_new d (find_seen (observation_id_of d row) s.seen) row s

unfoldable pub add_all : Ids → List Members → Store → Result Exc Store
add_all d [] s = ok s
add_all d (row ∷ rows) s = do t ← add d row s; add_all d rows t

unfoldable pub validated : Ids → List Members → Result Exc (List Members)
validated d [] = ok []
validated d (row ∷ rows) = do
  first ← observation d.instants row
  rest ← validated d rows
  ok (first ∷ rest)

unfoldable pub cursor : String → List (String × Json) → Option Json
cursor source [] = none
cursor source ((k, v) ∷ rest) = if str_eq k source then some v else cursor source rest

-- Cursor values, where None is no cursor.
abbrev pub same_cursor : Option Json → Option Json → Bool
same_cursor none none = true
same_cursor (some a) (some b) = same a b
same_cursor _ _ = false

-- The arguments of an import about its source: the cursor that is expected, and the next one.
pub record Import : Type 0 where
  pub source : Option String
  pub expected : Option Json
  pub next_cursor : Option Json

abbrev pub limit : ℕ
limit = 1000

unfoldable pub check_cursor : Import → Option String → Store → Result Exc (Unit {0})
check_cursor i none s = ok tt
check_cursor i (some source) s =
    raise_if (not (same_cursor (cursor source s.cursors) i.expected)) value_error

unfoldable pub moved : Option String → Option Json → Store → Store
moved (some source) (some v) s = record s { cursors = (source, v) ∷ s.cursors }
moved _ _ s = s

-- `(source is None) != (cursor is None)`
abbrev pub unpaired : Option String → Option Json → Bool
unpaired none none = false
unpaired (some source) (some v) = false
unpaired _ _ = true

-- CanonicalLedger.ingest, without the fault injection of tests
unfoldable pub ingest : Ids → List Members → Import → Store → Result Exc Store
ingest d rows i s = do
  valid ← validated d rows
  raise_if (ltb limit (length valid)) value_error
  raise_if (unpaired i.source i.next_cursor) value_error
  check_cursor i i.source s
  t ← add_all d valid s
  ok (moved i.source i.next_cursor t)

-- The result of `usage`; its reasons are a set.
pub record Usage : Type 0 where
  pub known_total_tokens : Option ℕ
  pub sample_count : ℕ
  pub known_samples : ℕ
  pub unknown_samples : ℕ
  pub reasons : List Reason

abbrev counted : String → Bool
counted semantics =
    any (str_eq semantics) ("request_increment" ∷ "cumulative_snapshot" ∷ "unknown" ∷ [])

unfoldable pub in_interval : Ids → String → String → String → List Fact → List Fact
in_interval d scope from to [] = []
in_interval d scope from to (f ∷ facts) =
    let rest = in_interval d scope from to facts in
    if str_eq f.scope scope
      && not (d.precedes f.at from)
      && d.precedes f.at to
      && counted f.semantics
    then f ∷ rest
    else rest

unfoldable pub summary : List Fact → Usage
summary facts =
    let deltas = known (map (λ f. f.delta) facts) in
    record {
      known_total_tokens = summed deltas;
      sample_count = length facts;
      known_samples = length deltas;
      unknown_samples = length facts - length deltas;
      reasons = map (λ f. f.reason) facts;
    }

-- CanonicalLedger.usage
unfoldable pub usage : Ids → String → Json → Json → Store → Result Exc Usage
usage d scope start stop s = do
  from ← or_raise (d.instants.instant start) value_error
  to ← or_raise (d.instants.instant stop) value_error
  raise_if
      (not (d.precedes from to) || not (any (str_eq scope) ("local" ∷ "account" ∷ "unknown" ∷ [])))
      value_error
  ok (summary (in_interval d scope from to s.facts))
