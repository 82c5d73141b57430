-- ===== src/Events/Fields.antt =====
-- The checks of single fields of an observation (crg/events.py).
use context_rollover_guard.Prelude.{
  ℕ, suc, ◌*◌, String, Bool, true, ◌&&◌, ◌||◌, not, Option, none, some, List, [], ◌∷◌, ◌++◌, str_eq,
  ltb, ◌==◌, if◌then◌else◌, any, Result, ok, err, ◌>>◌, raise_if,
}
use context_rollover_guard.Json.{
  Json, Members, null, bool, int, real, str, arr, obj, end, member, get,
}
use context_rollover_guard.Prelude.Int.{pos, negsuc}
use context_rollover_guard.Numbers.{largest}
use context_rollover_guard.Errors.{Exc, value_error, type_error}

-- `instant`: the instant in UTC, or `none` where it raises; and len(text)
pub record Instants : Type 0 where
  pub instant : Json → Option String
  pub length_of : String → ℕ

abbrev pub tokens : List String
tokens =
    "input_tokens" ∷ "output_tokens" ∷ "cached_input_tokens" ∷ "reasoning_output_tokens"
    ∷ "total_tokens" ∷ []

-- KINDS: the fields of each kind
unfoldable pub fields_of : String → Option (List String)
fields_of kind =
    if str_eq kind "context"
    then some ("active_context_tokens" ∷ "window_tokens" ∷ [])
    else if str_eq kind "usage"
    then some (
        tokens
        ++ "semantics" ∷ "generation" ∷ "request_id" ∷ "parent_id" ∷ "aggregation"
          ∷ "subset_contract" ∷ "zero_origin_at" ∷ [])
    else if str_eq kind "quota"
    then some ("bucket_id" ∷ "limit_id" ∷ "policy_epoch" ∷ "used_percent" ∷ "reset_at" ∷ [])
    else if str_eq kind "timing"
    then some ("wall_ms" ∷ "active_ms" ∷ "acceptance_ms" ∷ "process_id" ∷ "complete" ∷ [])
    else if str_eq kind "outcome"
    then some ("status" ∷ "accepted" ∷ "evidence_kind" ∷ [])
    else if str_eq kind "prediction"
    then some ("target" ∷ "lower" ∷ "upper" ∷ "intent_hash" ∷ "predictor_version" ∷ [])
    else if str_eq kind "cost"
    then some ("amount" ∷ "currency" ∷ "price_version" ∷ "estimated" ∷ [])
    else none

abbrev pub meta : List String
meta =
    "schema_version" ∷ "kind" ∷ "observation_id" ∷ "fact_id" ∷ "revision" ∷ "source"
    ∷ "adapter_version" ∷ "scope" ∷ "account_id" ∷ "workspace_id" ∷ "thread_id" ∷ "observed_at"
    ∷ "received_at" ∷ "quality" ∷ "data" ∷ []

-- set(m) <= names
unfoldable pub within : List String → Members → Bool
within names end = true
within names (member k v m) = any (str_eq k) names && within names m

unfoldable pub check_version : Option Json → Result Exc (Unit {0})
check_version (some (int (pos n))) = raise_if (not (n == 1)) value_error
check_version _ = err value_error

-- `row.get(key) in table`, for a table of texts; lists and dictionaries are not hashable.
unfoldable pub in_texts : List String → Option Json → Result Exc String
in_texts names (some (str s)) = if any (str_eq s) names then ok s else err value_error
in_texts names (some (arr xs)) = err type_error
in_texts names (some (obj m)) = err type_error
in_texts names _ = err value_error

unfoldable pub kind_of : Option Json → Result Exc (String × List String)
kind_of (some (str s)) = elim (fields_of s) [ none ↦ err value_error | some names ↦ ok (s, names) ]
kind_of (some (arr xs)) = err type_error
kind_of (some (obj m)) = err type_error
kind_of _ = err value_error

-- A text that is not empty and has at most 256 characters.
unfoldable pub bounded : Instants → Option Json → Result Exc (Unit {0})
bounded i (some (str s)) = raise_if (str_eq s "" || ltb 256 (i.length_of s)) value_error
bounded i _ = err value_error

unfoldable pub each_key :
    (Option Json → Result Exc (Unit {0})) → List String → Members → Result Exc (Unit {0})
each_key check [] m = ok tt
each_key check (k ∷ ks) m = check (get k m) >> each_key check ks m

-- A check of a value that may be missing or None.
unfoldable pub or_null : (Option Json → Result Exc (Unit {0})) → Option Json → Result Exc (Unit {0})
or_null check none = ok tt
or_null check (some null) = ok tt
or_null check (some v) = check (some v)

unfoldable pub check_revision : Option Json → Result Exc (Unit {0})
check_revision (some (int (pos n))) = ok tt
check_revision _ = err value_error

-- number(value, integer=True), and number(value)
unfoldable pub check_integer : Option Json → Result Exc (Unit {0})
check_integer (some (int (pos n))) = raise_if (ltb largest n) value_error
check_integer _ = err value_error

unfoldable pub check_number : Option Json → Result Exc (Unit {0})
check_number (some (int (pos n))) = ok tt
check_number (some (real (pos n) d)) = ok tt
check_number (some (real (negsuc n) d)) = err value_error
check_number _ = err value_error

-- used_percent > 100
unfoldable pub check_percent : Option Json → Result Exc (Unit {0})
check_percent (some (int (pos n))) = raise_if (ltb 100 n) value_error
check_percent (some (real (pos n) d)) = raise_if (ltb (100 * suc d) n) value_error
check_percent _ = ok tt

unfoldable pub check_bool : Option Json → Result Exc (Unit {0})
check_bool (some (bool b)) = ok tt
check_bool _ = err value_error
