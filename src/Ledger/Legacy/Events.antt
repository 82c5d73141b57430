-- ===== src/Ledger/Legacy/Events.antt =====
-- The tables of the projected event ledger, and the events that it accepts (crg/ledger.py, `Ledger`).
use context_rollover_guard.Prelude.{
  ℕ, String, Bool, true, ◌&&◌, not, Option, none, some, List, [], ◌∷◌, ◌++◌, str_eq, if◌then◌else◌,
  any, Result, ok, err, ◌>>=◌, ◌>>◌, raise_if, or_raise,
}
use context_rollover_guard.Json.{
  Json, Items, Members, null, int, str, arr, obj, nil, cons, end, member, get, put,
}
use context_rollover_guard.Prelude.Int.{pos}
use context_rollover_guard.Errors.{Exc, value_error, type_error}

-- The parts of Python that the ledger uses on texts.
pub record Clock : Type 0 where
  -- `identity`: the SHA-256 of the canonical JSON of a value
  pub identity : Json → String
  -- `timestamp`: the instant in UTC, or `none` where it raises
  pub timestamp : Option Json → Option String
  -- a < b, for texts
  pub precedes : String → String → Bool

abbrev pub tokens : List String
tokens =
    "input_tokens" ∷ "output_tokens" ∷ "cached_input_tokens" ∷ "reasoning_output_tokens"
    ∷ "total_tokens" ∷ []

abbrev pub fields : List String
fields =
    ("observed_at" ∷ "source_kind" ∷ "source_scope" ∷ "account_fingerprint" ∷ "workspace_id"
      ∷ "thread_id" ∷ "turn_id" ∷ "model_id" ∷ "effort" ∷ tokens)
    ++ "active_context_tokens" ∷ "duration_ms" ∷ "completion_state" ∷ []

-- A row of ledger_event, and one of counter_observation.
pub record Row : Type 0 where
  pub event_id : String
  pub payload_hash : String
  pub columns : Members

pub record Counter : Type 0 where
  pub event_id : String
  pub counter_key : String
  pub observed_at : String
  pub raw_tokens : Members
  pub reset_detected : Bool

pub record Tables : Type 0 where
  pub rows : List Row
  pub counters : List Counter

abbrev pub value_of : String → Members → Json
value_of k m = elim (get k m) [ none ↦ null | some v ↦ v ]

-- A validated count: `none` is None.
abbrev pub count_of : String → Members → Option ℕ
count_of k m = elim (get k m) [ some (int (pos n)) ↦ some n | _ ↦ none ]

abbrev pub of_count : Option ℕ → Json
of_count none = null
of_count (some n) = int (pos n)

unfoldable pub known_fields : Members → Bool
known_fields end = true
known_fields (member k v m) =
    any (str_eq k) (fields ++ "source_event_id" ∷ "counter_semantics" ∷ []) && known_fields m

unfoldable pub nonnegative : Option Json → Result Exc (Unit {0})
nonnegative none = ok tt
nonnegative (some null) = ok tt
nonnegative (some (int (pos n))) = ok tt
nonnegative (some _) = err value_error

unfoldable pub check_counts : List String → Members → Result Exc (Unit {0})
check_counts [] m = ok tt
check_counts (k ∷ ks) m = nonnegative (get k m) >> check_counts ks m

-- A text that is not empty.
unfoldable pub filled : Option Json → Result Exc String
filled (some (str s)) = if str_eq s "" then err value_error else ok s
filled _ = err value_error

unfoldable pub check_filled : List String → Members → Result Exc (Unit {0})
check_filled [] m = ok tt
check_filled (k ∷ ks) m = do s ← filled (get k m); check_filled ks m

abbrev pub completions : List String
completions =
    "completed" ∷ "failed" ∷ "cancelled" ∷ "timeout" ∷ "interrupted" ∷ "superseded" ∷ "observed"
    ∷ []

pub data Semantics : Type 0 where
  per_event cumulative unknown : Semantics

unfoldable pub semantics_of : Option Json → Result Exc Semantics
semantics_of (some (str s)) =
    if str_eq s "per_event"
    then ok per_event
    else if str_eq s "cumulative"
    then ok cumulative
    else if str_eq s "unknown"
    then ok unknown
    else err value_error
semantics_of (some (arr xs)) = err type_error
semantics_of (some (obj m)) = err type_error
semantics_of _ = err value_error

-- The values of some keys, as a list, and as a dictionary.
unfoldable pub values : List String → Members → Items
values [] m = nil
values (k ∷ ks) m = cons (value_of k m) (values ks m)

unfoldable pub select : List String → Members → Members
select [] m = end
select (k ∷ ks) m = member k (value_of k m) (select ks m)

-- The event with its instant in UTC, and its semantics, where it is accepted.
unfoldable pub checked_event : Clock → Members → Result Exc (Members × Semantics)
checked_event c raw = do
  raise_if (not (known_fields raw)) value_error
  at ← or_raise (c.timestamp (get "observed_at" raw)) value_error
  let event = put "observed_at" (str at) raw in
      do
        check_filled ("source_event_id" ∷ "source_kind" ∷ "source_scope" ∷ "completion_state" ∷ [])
            event
        state ← filled (get "completion_state" event)
        raise_if (not (any (str_eq state) completions)) value_error
        check_counts (tokens ++ "active_context_tokens" ∷ "duration_ms" ∷ []) event
        semantics ← semantics_of (get "counter_semantics" event)
        ok (event, semantics)

abbrev pub scope_keys : List String
scope_keys =
    "source_kind" ∷ "source_scope" ∷ "account_fingerprint" ∷ "workspace_id" ∷ "thread_id" ∷ []

abbrev pub event_id_of : Clock → Members → String
event_id_of c event = c.identity (arr (values (scope_keys ++ "source_event_id" ∷ []) event))

abbrev pub counter_key_of : Clock → Members → String
counter_key_of c event = c.identity (arr (values (scope_keys ++ "model_id" ∷ []) event))

abbrev pub observed_at : Members → String
observed_at m = elim (get "observed_at" m) [ some (str s) ↦ s | _ ↦ "" ]

abbrev pub observed_scope : Members → String
observed_scope m = elim (get "source_scope" m) [ some (str s) ↦ s | _ ↦ "" ]
