-- ===== src/Events.antt =====
-- The contract of an observation (crg/events.py, `Observation`): the validation of a dictionary, which
-- gives the normalised one. Instants are parsed outside; the numbers of JSON are finite.
pub mod Usage
mod Fields
pub use Fields.{Instants, tokens, meta}
unfoldable pub use Fields.{
  fields_of, within, check_version, in_texts, kind_of, bounded, each_key, or_null, check_revision,
  check_integer, check_number, check_percent, check_bool,
}
use context_rollover_guard.Prelude.{
  ℕ, zero, suc, ◌+◌, ◌-◌, ◌*◌, ◌/◌, ◌%◌, ◌≤◌, ◌<◌, min, max, String, str_append, ◌≡◌, refl, sym, ap,
  ◌∙◌, subst, ◌≢◌, ◌↔◌, ◌⊎◌, inl, inr, Bool, true, false, ◌&&◌, ◌||◌, not, Option, none, some, List,
  [], ◌∷◌, ◌++◌, map, arith, str_eq, eq_iff, ltb, leb, ◌==◌, if◌then◌else◌, is_some, length,
  get_elem?, take, drop, any, all, All, Result, ok, err, ◌>>=◌, ◌>>◌, raise_if, or_raise, >>=-eq-ok,
  Result-cases, Bool-cases, Option-cases,
}
use context_rollover_guard.Json.{
  put, Json, Items, Members, null, bool, int, real, str, arr, obj, nil, cons, end, member, get,
  same,
}
use context_rollover_guard.Prelude.Int.{
  ℤ, pos, negsuc, sub_ℕ, ltb_ℤ, ◌+ℤ◌, ◌-ℤ◌, ◌≤ℤ◌, pos_part, neg_part,
}
use context_rollover_guard.Numbers.{largest}
use context_rollover_guard.Errors.{Exc, value_error, type_error}
use context_rollover_guard.Settings.{truthy}

-- row[key] = instant(row.get(key)), for two keys
unfoldable pub with_instant : Instants → String → Members → Result Exc Members
with_instant i k m = do
  at ← or_raise (i.instant (elim (get k m) [ none ↦ null | some v ↦ v ])) value_error
  ok (put k (str at) m)

abbrev pub is_given : Option Json → Bool
is_given none = false
is_given (some null) = false
is_given (some v) = true

-- The same, where the value is not None.
unfoldable pub with_optional : Instants → String → Members → Result Exc Members
with_optional i k m = if is_given (get k m) then with_instant i k m else ok m

abbrev pub count_in : Option Json → Option ℕ
count_in (some (int (pos n))) = some n
count_in _ = none

abbrev pub count_of : String → Members → Option ℕ
count_of k m = count_in (get k m)

abbrev pub exceeds : Option ℕ → Option ℕ → Bool
exceeds (some sub) (some whole) = ltb whole sub
exceeds _ _ = false

abbrev pub differs : Option ℕ → ℕ → Bool
differs none total = false
differs (some n) total = not (n == total)

-- The total of a usage whose input and output include the subsets, where both are known.
unfoldable pub with_total : Option ℕ → Option ℕ → Members → Result Exc Members
with_total (some i) (some o) data_of =
    raise_if (differs (count_of "total_tokens" data_of) (i + o)) value_error
    >> ok (put "total_tokens" (int (pos (i + o))) data_of)
with_total _ _ data_of = ok data_of

unfoldable pub check_subsets : Members → Result Exc Members
check_subsets data_of = do
  raise_if (exceeds (count_of "cached_input_tokens" data_of) (count_of "input_tokens" data_of))
      value_error
  raise_if (exceeds (count_of "reasoning_output_tokens" data_of) (count_of "output_tokens" data_of))
      value_error
  with_total (count_of "input_tokens" data_of) (count_of "output_tokens" data_of) data_of

abbrev pub is_text : Option Json → Bool
is_text (some (str s)) = true
is_text _ = false

abbrev pub semantics_names : List String
semantics_names = "request_increment" ∷ "cumulative_snapshot" ∷ "account_daily" ∷ "unknown" ∷ []

abbrev pub aggregation_names : List String
aggregation_names = "exclusive" ∷ "includes_children" ∷ "unknown" ∷ []

abbrev pub contract_names : List String
contract_names = "input_output_include_subsets" ∷ "unknown" ∷ []

-- The contract of the kind `usage`.
unfoldable pub check_usage : Members → Result Exc Members
check_usage data_of = do
  semantics ← in_texts semantics_names (get "semantics" data_of)
  aggregation ← in_texts aggregation_names (get "aggregation" data_of)
  contract ← in_texts contract_names (get "subset_contract" data_of)
  raise_if (str_eq semantics "cumulative_snapshot" && not (is_text (get "generation" data_of)))
      value_error
  if str_eq contract "input_output_include_subsets" then check_subsets data_of else ok data_of

-- The checks of single fields of `data`.
unfoldable pub check_fields : List String → Members → Result Exc (Unit {0})
check_fields names raw = do
  raise_if (not (within names raw)) value_error
  each_key (or_null check_integer)
      (tokens
        ++ "active_context_tokens" ∷ "window_tokens" ∷ "wall_ms" ∷ "active_ms" ∷ "acceptance_ms"
          ∷ [])
      raw
  each_key (or_null check_number) ("used_percent" ∷ "amount" ∷ "lower" ∷ "upper" ∷ []) raw
  check_percent (get "used_percent" raw)
  each_key (or_null check_bool) ("accepted" ∷ "estimated" ∷ "complete" ∷ []) raw

unfoldable pub checked_data : Instants → String → List String → Members → Result Exc Members
checked_data i kind names raw = do
  check_fields names raw
  with_origin ← with_optional i "zero_origin_at" raw
  with_reset ← with_optional i "reset_at" with_origin
  if str_eq kind "usage" then check_usage with_reset else ok with_reset

abbrev pub data_of : Option Json → Result Exc Members
data_of (some (obj m)) = ok m
data_of _ = err value_error

-- The contract's version, and the kind with the fields of its data.
unfoldable pub check_head : Members → Result Exc (String × List String)
check_head row = do
  raise_if (not (within meta row)) value_error
  check_version (get "schema_version" row)
  kind_of (get "kind" row)

-- The checks of the other fields around `data`.
unfoldable pub check_meta : Instants → Members → Result Exc (Unit {0})
check_meta i row = do
  each_key (bounded i) ("observation_id" ∷ "fact_id" ∷ "source" ∷ "adapter_version" ∷ []) row
  scope ← in_texts ("local" ∷ "account" ∷ "unknown" ∷ []) (get "scope" row)
  quality ← in_texts ("verified" ∷ "synthetic" ∷ "unverified" ∷ []) (get "quality" row)
  each_key (or_null (bounded i)) ("account_id" ∷ "workspace_id" ∷ "thread_id" ∷ []) row
  check_revision (get "revision" row)

-- Observation.__post_init__, on the dictionary; its result is the payload
unfoldable pub observation : Instants → Members → Result Exc Members
observation i row = do
  kind ← check_head row
  check_meta i row
  observed ← with_instant i "observed_at" row
  received ← with_instant i "received_at" observed
  raw ← data_of (get "data" received)
  checked ← checked_data i kind.0 kind.1 raw
  ok (put "data" (obj checked) received)

abbrev pub is_str : String → String → Members → Bool
is_str k s m = elim (get k m) [ some (str t) ↦ str_eq t s | _ ↦ false ]

abbrev pub data_at : Option Json → Members
data_at (some (obj m)) = m
data_at _ = end

abbrev pub data_in : Members → Members
data_in row = data_at (get "data" row)

abbrev has_parent : Option Json → Bool
has_parent none = false
has_parent (some v) = truthy v

-- Observation.exact_usage, of a payload
unfoldable pub exact_usage : Members → Result Exc (Option ℕ)
exact_usage row =
    raise_if (not (is_str "kind" "usage" row)) value_error
    >> (if is_str "scope" "unknown" row
          || is_str "quality" "unverified" row
          || not (is_str "aggregation" "exclusive" (data_in row))
          || has_parent (get "parent_id" (data_in row))
          || is_str "semantics" "unknown" (data_in row)
        then ok none
        else ok (count_of "total_tokens" (data_in row)))

-- The fields that a set of names keeps.
unfoldable pub keep : List String → Members → Members
keep names end = end
keep names (member k v m) =
    let rest = keep names m in if any (str_eq k) names then member k v rest else rest

abbrev known_kind : Option Json → Result Exc (Option (List String))
known_kind (some (str s)) = ok (fields_of s)
known_kind (some (arr xs)) = err type_error
known_kind (some (obj m)) = err type_error
known_kind _ = ok none

abbrev narrowed : Option (List String) → Members → Members
narrowed none row = row
narrowed (some names) row = elim (get "data" row) [
  | some (obj m) ↦ put "data" (obj (keep names m)) row
  | _ ↦ row
]

-- project(raw)
unfoldable pub project : Instants → Members → Result Exc Members
project i raw = do
  names ← known_kind (get "kind" (keep meta raw))
  observation i (narrowed names (keep meta raw))
