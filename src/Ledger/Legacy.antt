-- ===== src/Ledger/Legacy.antt =====
-- The projected event ledger (crg/ledger.py, `Ledger`). A table is the list of its rows, the newest
-- first; an operation in its transaction is one function of the tables.
mod Events
pub use Events.{
  Clock, tokens, fields, Row, Counter, observed_at, Tables, value_of, count_of, of_count,
  completions, Semantics, scope_keys, event_id_of, counter_key_of, observed_scope, per_event,
  cumulative, unknown,
}
unfoldable pub use Events.{
  known_fields, nonnegative, check_counts, filled, check_filled, semantics_of, values, select,
  checked_event,
}
use context_rollover_guard.Prelude.{
  ℕ, zero, suc, ◌+◌, ◌-◌, ◌*◌, ◌/◌, ◌%◌, ◌≤◌, ◌<◌, min, max, String, str_append, ◌≡◌, refl, sym, ap,
  ◌∙◌, subst, ◌≢◌, ◌↔◌, ◌⊎◌, inl, inr, Bool, true, false, ◌&&◌, ◌||◌, not, Option, none, some, List,
  [], ◌∷◌, ◌++◌, map, arith, str_eq, eq_iff, ltb, leb, ◌==◌, if◌then◌else◌, is_some, length,
  get_elem?, take, drop, any, all, All, Result, ok, err, ◌>>=◌, ◌>>◌, raise_if, or_raise, >>=-eq-ok,
  Result-cases, Bool-cases, Option-cases,
}
use context_rollover_guard.Json.{
  Json, Items, Members, null, bool, int, real, str, arr, obj, nil, cons, end, member, get, same,
  put,
}
use context_rollover_guard.Prelude.Int.{
  ℤ, pos, negsuc, sub_ℕ, ltb_ℤ, ◌+ℤ◌, ◌-ℤ◌, ◌≤ℤ◌, pos_part, neg_part,
}
use context_rollover_guard.Numbers.{largest}
use context_rollover_guard.Errors.{Exc, value_error, type_error, storage_error}

unfoldable pub find : String → List Row → Option Row
find id [] = none
find id (r ∷ rows) = if str_eq r.event_id id then some r else find id rows

-- ORDER BY observed_at DESC LIMIT 1
unfoldable pub newer : Clock → Counter → Option Counter → Option Counter
newer c r none = some r
newer c r (some s) = if c.precedes r.observed_at s.observed_at then some s else some r

unfoldable pub latest : Clock → String → List Counter → Option Counter
latest c key [] = none
latest c key (r ∷ rs) =
    let rest = latest c key rs in if str_eq r.counter_key key then newer c r rest else rest

-- `value is not None and old.get(key) is not None and value < old[key]`
abbrev decreases : Option ℕ → Option ℕ → Bool
decreases (some new) (some old) = ltb new old
decreases _ _ = false

unfoldable pub resets : List String → Members → Members → Bool
resets [] old raw = false
resets (k ∷ ks) old raw = decreases (count_of k raw) (count_of k old) || resets ks old raw

-- The increment; there is no reset where it is taken, so that it is not negative.
unfoldable pub increment : Option ℕ → Option ℕ → Option ℕ
increment (some new) (some old) = some (new - old)
increment _ _ = none

abbrev pub old_tokens : Option Counter → Members
old_tokens none = end
old_tokens (some r) = r.raw_tokens

unfoldable pub project : (String → Option ℕ) → List String → Members → Members
project new [] m = m
project new (k ∷ ks) m = project new ks (put k (of_count (new k)) m)

-- The increments of a cumulative observation since the previous one.
unfoldable pub increments : Option Counter → Bool → Members → String → Option ℕ
increments none reset raw k = none
increments (some r) reset raw k =
    if reset then none else increment (count_of k raw) (count_of k r.raw_tokens)

abbrev is_stale : Clock → Option Counter → String → Bool
is_stale c none at = false
is_stale c (some r) at = not (c.precedes r.observed_at at)

-- The counters after a new event, and its columns.
unfoldable pub projected :
    Clock → String → Members → Semantics → List Counter → Result Exc (Members × List Counter)
projected c id event per_event counters = ok (event, counters)
projected c id event unknown counters = ok (project (λ k. none) tokens event, counters)
projected c id event cumulative counters = do
  let key = counter_key_of c event in
      let previous = latest c key counters in
      let raw = select tokens event in
      let reset = resets tokens (old_tokens previous) raw in
      do
        raise_if (is_stale c previous (observed_at event)) value_error
        ok (
          project (increments previous reset raw) tokens event,
          record {
            event_id = id;
            counter_key = key;
            observed_at = observed_at event;
            raw_tokens = raw;
            reset_detected = reset;
          }
              ∷ counters,
        )

-- SQLite binds texts, numbers of 64 bits and None.
abbrev storable : Json → Bool
storable (int n) = leb (pos_part n) largest && leb (neg_part n) (suc largest)
storable (arr xs) = false
storable (obj m) = false
storable _ = true

unfoldable pub all_storable : Members → Bool
all_storable end = true
all_storable (member k v m) = storable v && all_storable m

-- What `add` does in its transaction, by the row of the event that is there.
unfoldable pub placed :
    Clock
    → String
    → String
    → Members
    → Semantics
    → Option Row
    → Tables
    → Result Exc (String × Tables)
placed c id hash event semantics (some row) t =
    if str_eq row.payload_hash hash then ok (id, t) else err value_error
placed c id hash event semantics none t = do
  made ← projected c id event semantics t.counters
  raise_if (not (all_storable (select fields made.0))) storage_error
  ok (
    id,
    record {
      rows = record { event_id = id; payload_hash = hash; columns = select fields made.0 } ∷ t.rows;
      counters = made.1;
    },
  )

unfoldable pub insert :
    Clock → String → String → Members → Semantics → Tables → Result Exc (String × Tables)
insert c id hash event semantics t = placed c id hash event semantics (find id t.rows) t

-- Ledger.add
unfoldable pub add : Clock → Members → Tables → Result Exc (String × Tables)
add c raw t = do
  checked ← checked_event c raw
  insert c (event_id_of c checked.0) (c.identity (obj checked.0)) checked.0 checked.1 t

-- The result of `usage`; the texts in it that never vary are left out.
pub record Usage : Type 0 where
  pub known_total_tokens : Option ℕ
  pub sample_count : ℕ
  pub known_samples : ℕ
  pub unknown_samples : ℕ
  pub is_partial : Bool

-- source_scope=? AND observed_at>=? AND observed_at<?
abbrev pub is_in : Clock → String → String → String → Row → Bool
is_in c scope from to r =
    str_eq (observed_scope r.columns) scope
    && not (c.precedes (observed_at r.columns) from)
    && c.precedes (observed_at r.columns) to

unfoldable pub totals_in : Clock → String → String → String → List Row → List (Option ℕ)
totals_in c scope from to [] = []
totals_in c scope from to (r ∷ rs) =
    let rest = totals_in c scope from to rs in
    if is_in c scope from to r then count_of "total_tokens" r.columns ∷ rest else rest

unfoldable pub known : List (Option ℕ) → List ℕ
known [] = []
known (none ∷ xs) = known xs
known (some n ∷ xs) = n ∷ known xs

unfoldable pub sum : List ℕ → ℕ
sum [] = 0
sum (n ∷ ns) = n + sum ns

abbrev pub summed : List ℕ → Option ℕ
summed [] = none
summed (n ∷ ns) = some (sum (n ∷ ns))

unfoldable pub summary : List (Option ℕ) → Usage
summary totals = record {
  known_total_tokens = summed (known totals);
  sample_count = length totals;
  known_samples = length (known totals);
  unknown_samples = length totals - length (known totals);
  is_partial = not (length (known totals) == length totals) || length totals == 0;
}

-- Ledger.usage
unfoldable pub usage : Clock → String → Option Json → Option Json → Tables → Result Exc Usage
usage c scope start stop t = do
  from ← or_raise (c.timestamp start) value_error
  to ← or_raise (c.timestamp stop) value_error
  raise_if (not (c.precedes from to)) value_error
  ok (summary (totals_in c scope from to t.rows))
