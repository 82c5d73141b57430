-- ===== src/Ledger/Canonical/Facts.antt =====
-- The facts of the canonical ledger and the derivation of their increments (crg/ledger.py,
-- `CanonicalLedger`).
use context_rollover_guard.Prelude.{
  ℕ, ◌-◌, String, Bool, true, false, ◌&&◌, ◌||◌, not, Option, none, some, List, [], ◌∷◌, str_eq,
  ltb, ◌==◌, if◌then◌else◌, Result, ok,
}
use context_rollover_guard.Json.{Json, Members, null, str, arr, obj, nil, cons, end, member, get}
use context_rollover_guard.Errors.{Exc}
use context_rollover_guard.Events.{Instants, exact_usage, count_of, data_in, is_str}

pub record Ids : Type 0 where
  -- `identity`: the SHA-256 of the canonical JSON of a value
  pub identity : Json → String
  -- a < b, for texts, as SQLite compares them
  pub precedes : String → String → Bool
  pub instants : Instants

pub data Reason : Type 0 where
  request_increment : Reason
  separate_semantic_object : Reason
  left_censored_baseline : Reason
  verified_zero_origin : Reason
  ambiguous_same_time : Reason
  unknown_counter : Reason
  counter_correction : Reason
  observed_delta : Reason
  unknown_scope_or_aggregation : Reason
  -- 'UNKNOWN', before the derivation
  underived : Reason

-- A row of `observation`, and one of `fact`.
pub record Seen : Type 0 where
  pub id : String
  pub hash : String
  pub fact : String
  pub revision : ℕ
  pub payload : Members

pub record Fact : Type 0 where
  pub id : String
  pub revision : ℕ
  pub hash : String
  pub payload : Members
  pub series : String
  pub at : String
  pub scope : String
  pub semantics : String
  pub raw_total : Option ℕ
  pub delta : Option ℕ
  pub reason : Reason

pub record Store : Type 0 where
  pub seen : List Seen
  pub facts : List Fact
  pub cursors : List (String × Json)

abbrev pub value_of : String → Members → Json
value_of k m = elim (get k m) [ none ↦ null | some v ↦ v ]

abbrev pub text_in : String → Members → String
text_in k m = elim (get k m) [ some (str s) ↦ s | _ ↦ "" ]

abbrev pub number_in : String → Members → ℕ
number_in k m = elim (count_of k m) [ some n ↦ n | none ↦ 0 ]

abbrev pub scope_of : Members → Json
scope_of row = arr (
    cons (value_of "source" row) (
      cons (value_of "adapter_version" row) (
        cons (value_of "scope" row) (
          cons (value_of "account_id" row) (
            cons (value_of "workspace_id" row)
              (cons (value_of "thread_id" row) (cons (value_of "kind" row) nil)))))))

abbrev pub observation_id_of : Ids → Members → String
observation_id_of d row = d.identity (
    arr (
      cons (scope_of row)
        (cons (value_of "observation_id" row) (cons (value_of "revision" row) nil))))

abbrev pub fact_id_of : Ids → Members → String
fact_id_of d row = d.identity (arr (cons (scope_of row) (cons (value_of "fact_id" row) nil)))

-- The content without the metadata of its transport.
unfoldable pub content : Members → Members
content end = end
content (member k v m) =
    let rest = content m in
    if str_eq k "received_at" || str_eq k "observation_id" then rest else member k v rest

abbrev pub digest_of : Ids → Members → String
digest_of d row = d.identity (obj (content row))

-- data.get('semantics', row['kind'])
abbrev pub semantics_of : Members → String
semantics_of row = elim (get "semantics" (data_in row)) [
  | some (str s) ↦ s
  | _ ↦ text_in "kind" row
]

abbrev pub series_of : Ids → Members → String
series_of d row = d.identity (
    arr (
      cons (scope_of row)
        (cons (str (semantics_of row)) (cons (value_of "generation" (data_in row)) nil))))

unfoldable pub find_seen : String → List Seen → Option Seen
find_seen id [] = none
find_seen id (s ∷ rest) = if str_eq s.id id then some s else find_seen id rest

unfoldable pub find_fact : String → List Fact → Option Fact
find_fact id [] = none
find_fact id (f ∷ rest) = if str_eq f.id id then some f else find_fact id rest

-- UPDATE fact ... WHERE id=?, for the primary key
unfoldable pub update_fact : String → (Fact → Fact) → List Fact → List Fact
update_fact id u [] = []
update_fact id u (f ∷ rest) =
    let others = update_fact id u rest in if str_eq f.id id then u f ∷ rest else f ∷ others

-- (at, id) < (at, id)
abbrev pub earlier : Ids → Fact → Fact → Bool
earlier d f g = d.precedes f.at g.at || (str_eq f.at g.at && d.precedes f.id g.id)

-- The last fact of the series before one, and the first after it.
unfoldable pub previous : Ids → Fact → List Fact → Option Fact
previous d f [] = none
previous d f (g ∷ rest) =
    let best = previous d f rest in
    if str_eq g.series f.series && earlier d g f
    then (elim best [ none ↦ some g | some h ↦ if earlier d h g then some g else some h ])
    else best

unfoldable pub following : Ids → Fact → List Fact → Option Fact
following d f [] = none
following d f (g ∷ rest) =
    let best = following d f rest in
    if str_eq g.series f.series && earlier d f g
    then (elim best [ none ↦ some g | some h ↦ if earlier d g h then some g else some h ])
    else best

abbrev pub is_zero : Option ℕ → Bool
is_zero (some n) = n == 0
is_zero none = false

-- The increment of a snapshot after another one.
unfoldable pub growth : Option ℕ → Option ℕ → Option ℕ × Reason
growth (some new) (some old) =
    if ltb new old then (none, counter_correction) else (some (new - old), observed_delta)
growth _ _ = (none, unknown_counter)

unfoldable pub since : Fact → Option Fact → Option ℕ × Reason
since f none =
    if is_str "zero_origin_at" f.at (data_in f.payload) && is_zero f.raw_total
    then (some 0, verified_zero_origin)
    else (none, left_censored_baseline)
since f (some g) =
    if str_eq g.at f.at then (none, ambiguous_same_time) else growth f.raw_total g.raw_total

abbrev pub of_request : Option ℕ → Option ℕ × Reason
of_request none = (none, unknown_scope_or_aggregation)
of_request (some n) = (some n, request_increment)

-- The increment and its reason, from all the facts.
unfoldable pub derived : Ids → List Fact → Fact → Option ℕ × Reason
derived d facts f =
    if str_eq f.semantics "cumulative_snapshot"
    then since f (previous d f facts)
    else if str_eq f.semantics "request_increment"
    then of_request f.raw_total
    else (none, separate_semantic_object)

abbrev pub with_derived : Option ℕ × Reason → Fact → Fact
with_derived r f = record f { delta = r.0; reason = r.1 }

-- _derive
unfoldable pub derive : Ids → Option Fact → List Fact → List Fact
derive d none facts = facts
derive d (some f) facts = update_fact f.id (with_derived (derived d facts f)) facts

-- ON CONFLICT(id) DO UPDATE
abbrev pub merge : Fact → Fact → Fact
merge f g = record g {
  revision = f.revision;
  hash = f.hash;
  payload = f.payload;
  raw_total = f.raw_total;
}

unfoldable pub put_fact : Option Fact → Fact → List Fact → List Fact
put_fact none f facts = f ∷ facts
put_fact (some prior) f facts = update_fact f.id (merge f) facts

abbrev pub raw_of : Members → Result Exc (Option ℕ)
raw_of row = if is_str "kind" "usage" row then exact_usage row else ok none

abbrev pub seen_of : Ids → Members → Seen
seen_of d row = record {
  id = observation_id_of d row;
  hash = digest_of d row;
  fact = fact_id_of d row;
  revision = number_in "revision" row;
  payload = row;
}

abbrev pub fact_of : Ids → Members → Option ℕ → Fact
fact_of d row raw = record {
  id = fact_id_of d row;
  revision = number_in "revision" row;
  hash = digest_of d row;
  payload = row;
  series = series_of d row;
  at = text_in "observed_at" row;
  scope = text_in "scope" row;
  semantics = semantics_of row;
  raw_total = raw;
  delta = none;
  reason = underived;
}

abbrev pub conflicts : Fact → Option Fact → Bool
conflicts f none = false
conflicts f (some g) = g.revision == f.revision && not (str_eq g.hash f.hash)

abbrev pub is_newest : Fact → Option Fact → Bool
is_newest f none = true
is_newest f (some g) = ltb g.revision f.revision

abbrev pub moves : Fact → Option Fact → Bool
moves f none = false
moves f (some g) = not (str_eq g.series f.series) || not (str_eq g.at f.at)

-- The facts after a new revision: it is stored, then it and the fact after it are derived.
unfoldable pub with_fact : Ids → Option Fact → Fact → List Fact → List Fact
with_fact d prior f facts =
    let stored = put_fact prior f facts in
    let first = derive d (find_fact f.id stored) stored in derive d (following d f first) first
