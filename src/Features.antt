-- ===== src/Features.antt =====
-- The projection of a confirmed task (crg/features.py). Hashing, instants and the pattern of a hash
-- are parameters; a missing key of the policy is a ValueError, as its keys are compared first.
pub mod Snapshot
use context_rollover_guard.Prelude.{
  ℕ, zero, suc, ◌+◌, ◌-◌, ◌*◌, ◌/◌, ◌%◌, ◌≤◌, ◌<◌, min, max, String, str_append, ◌≡◌, refl, sym, ap,
  ◌∙◌, subst, ◌≢◌, ◌↔◌, ◌⊎◌, inl, inr, Bool, true, false, ◌&&◌, ◌||◌, not, Option, none, some, List,
  [], ◌∷◌, ◌++◌, map, arith, str_eq, eq_iff, ltb, leb, ◌==◌, if◌then◌else◌, is_some, length,
  get_elem?, take, drop, any, all, All, Result, ok, err, ◌>>=◌, ◌>>◌, raise_if, or_raise, >>=-eq-ok,
  Result-cases, Bool-cases, Option-cases,
}
use context_rollover_guard.Json.{
  Json, Items, Members, null, bool, int, real, str, arr, obj, nil, cons, end, member, get, same,
}
use context_rollover_guard.Prelude.Int.{
  ℤ, pos, negsuc, sub_ℕ, ltb_ℤ, ◌+ℤ◌, ◌-ℤ◌, ◌≤ℤ◌, pos_part, neg_part,
}
use context_rollover_guard.Errors.{Exc, value_error, type_error, key_error}
use context_rollover_guard.Events.{within, in_texts, each_key, or_null, check_integer, Instants}

pub record Tools : Type 0 where
  -- `identity`: the SHA-256 of the canonical JSON of a value
  pub identity : Json → String
  pub instants : Instants
  -- re.fullmatch('[0-9a-f]{64}', text) is not None
  pub is_hash : String → Bool

abbrev pub policy_keys : List String
policy_keys =
    "model_id" ∷ "effort" ∷ "runtime_version" ∷ "service_tier" ∷ "execution_mode" ∷ "tool_family"
    ∷ []

abbrev pub intent_keys : List String
intent_keys =
    "task_id" ∷ "confirmed" ∷ "kind" ∷ "risk" ∷ "files" ∷ "acceptance" ∷ "description"
    ∷ "input_bytes" ∷ "headroom_tokens" ∷ "retry_count" ∷ []

abbrev pub kinds : List String
kinds = "docs" ∷ "code" ∷ "test" ∷ "protocol" ∷ "security" ∷ "analysis" ∷ []

abbrev pub risks : List String
risks = "low" ∷ "medium" ∷ "high" ∷ []

unfoldable pub has_all : List String → Members → Bool
has_all [] m = true
has_all (k ∷ ks) m = is_some (get k m) && has_all ks m

abbrev pub has_exactly : List String → Members → Bool
has_exactly keys m = within keys m && has_all keys m

-- Every value is a text that is not empty, and one of at most 256 characters.
unfoldable pub all_filled : Members → Bool
all_filled end = true
all_filled (member k (str s) m) = not (str_eq s "") && all_filled m
all_filled (member k v m) = false

unfoldable pub all_short : Instants → Members → Bool
all_short i end = true
all_short i (member k (str s) m) = not (ltb 256 (i.length_of s)) && all_short i m
all_short i (member k v m) = false

abbrev pub is_str : String → Option Json → Bool
is_str s (some (str t)) = str_eq t s
is_str s _ = false

-- A list of texts, with its length.
unfoldable pub count_texts : Items → Result Exc ℕ
count_texts nil = ok 0
count_texts (cons (str s) rest) = do n ← count_texts rest; ok (suc n)
count_texts (cons v rest) = err value_error

abbrev pub text_list : Option Json → Result Exc ℕ
text_list (some (arr xs)) = count_texts xs
text_list _ = err value_error

abbrev pub is_true : Option Json → Bool
is_true (some (bool b)) = b
is_true _ = false

abbrev pub task_name : Option Json → Option String
task_name (some (str s)) = if str_eq s "" then none else some s
task_name _ = none

abbrev pub is_inert : Option Json → Bool
is_inert none = true
is_inert (some (str s)) = true
is_inert _ = false

abbrev pub or_null_value : Option Json → Json
or_null_value none = null
or_null_value (some v) = v

abbrev pub size_semantics : String
size_semantics = "bytes are a rough feature, not billed tokens"

abbrev pub counts : List String
counts = "input_bytes" ∷ "headroom_tokens" ∷ "retry_count" ∷ []

-- The snapshot of a confirmed intent.
unfoldable pub snapshot_of :
    Tools → Members → Members → Json → String → String → String → ℕ → ℕ → String → Members
snapshot_of t intent policy at task kind risk files acceptance instant =
    member "status" (str "CONFIRMED") (
      member "task_id" (str (t.identity (str task))) (
        member "intent_hash" (str (t.identity (obj intent))) (
          member "feature_version" (int (pos 1)) (
            member "as_of" (str instant) (
              member "policy" (obj policy) (
                member "kind" (str kind) (
                  member "risk" (str risk) (
                    member "file_count" (int (pos files)) (
                      member "acceptance_count" (int (pos acceptance)) (
                        member "input_bytes" (or_null_value (get "input_bytes" intent)) (
                          member "headroom_tokens" (or_null_value (get "headroom_tokens" intent)) (
                            member "retry_count" (or_null_value (get "retry_count" intent))
                              (member "size_semantics" (str size_semantics) end)))))))))))))

unfoldable pub confirmed : Tools → Members → Members → Json → String → Result Exc Members
confirmed t intent policy at task = do
  kind ← in_texts kinds (get "kind" intent)
  risk ← in_texts risks (get "risk" intent)
  raise_if (not (has_exactly policy_keys policy) || not (all_filled policy)) value_error
  raise_if (not (is_str "single_agent" (get "execution_mode" policy))) value_error
  files ← text_list (get "files" intent)
  acceptance ← text_list (get "acceptance" intent)
  each_key (or_null check_integer) counts intent
  raise_if (not (is_inert (get "description" intent))) value_error
  instant ← or_raise (t.instants.instant at) value_error
  ok (snapshot_of t intent policy at task kind risk files acceptance instant)

-- `features`; `none` is the result NEXT_TASK_UNKNOWN
unfoldable pub features : Tools → Option Members → Members → Json → Result Exc (Option Members)
features t none policy at = ok none
features t (some intent) policy at = do
  raise_if (not (within intent_keys intent)) value_error
  if not (is_true (get "confirmed" intent))
      then ok none
      else elim (task_name (get "task_id" intent)) [
        | none ↦ ok none
        | some task ↦ do s ← confirmed t intent policy at task; ok (some s)
      ]

abbrev pub snapshot_keys : List String
snapshot_keys =
    "status" ∷ "task_id" ∷ "intent_hash" ∷ "feature_version" ∷ "as_of" ∷ "policy" ∷ "kind" ∷ "risk"
    ∷ "file_count" ∷ "acceptance_count" ∷ "input_bytes" ∷ "headroom_tokens" ∷ "retry_count"
    ∷ "size_semantics" ∷ []

-- `matches`: the values of the keys, where a missing one is None
abbrev pub agree : String → Members → Members → Bool
agree k a b = same (or_null_value (get k a)) (or_null_value (get k b))

unfoldable pub matches : Members → Members → Bool
matches prediction snapshot =
    is_str "CONFIRMED" (get "status" snapshot)
    && agree "intent_hash" prediction snapshot
    && agree "policy" prediction snapshot
    && agree "feature_version" prediction snapshot

unfoldable pub check_version : Option Json → Result Exc (Unit {0})
check_version (some (int (pos n))) = raise_if (not (n == 1)) value_error
check_version _ = err value_error

unfoldable pub check_hash : Tools → Option Json → Result Exc (Unit {0})
check_hash t (some (str s)) = raise_if (not (t.is_hash s)) value_error
check_hash t _ = err value_error

-- A policy that is no dictionary raises, here a ValueError.
unfoldable pub check_policy : Tools → Option Json → Result Exc (Unit {0})
check_policy t (some (obj m)) =
    raise_if
      (not (has_exactly policy_keys m)
        || not (all_filled m)
        || not (all_short t.instants m)
        || not (is_str "single_agent" (get "execution_mode" m)))
      value_error
check_policy t _ = err value_error

abbrev pub all_counts : List String
all_counts = "file_count" ∷ "acceptance_count" ∷ counts

-- The checks of the values of a snapshot.
unfoldable pub check_values : Tools → Members → Result Exc (Unit {0})
check_values t s = do
  check_version (get "feature_version" s)
  check_hash t (get "task_id" s)
  check_hash t (get "intent_hash" s)
  each_key (or_null check_integer) all_counts s
  kind ← in_texts kinds (get "kind" s)
  risk ← in_texts risks (get "risk" s)
  check_policy t (get "policy" s)
  raise_if (not (is_str size_semantics (get "size_semantics" s))) value_error
  instant ← or_raise (t.instants.instant (or_null_value (get "as_of" s))) value_error
  ok tt

unfoldable pub validate_snapshot : Tools → Members → Result Exc (Unit {0})
validate_snapshot t s = do
  raise_if (not (has_exactly snapshot_keys s) || not (is_str "CONFIRMED" (get "status" s)))
      value_error
  check_values t s
