-- ===== src/StateStore/Codec.antt =====
-- The bytes of a state file (crg/state_store.py, `decode`, `encode`). Parsing and printing JSON are
-- parameters; a document keeps duplicate keys, which the hook `_pairs` refuses. A risk score that
-- is an int is read as the equal float.
use context_rollover_guard.Prelude.{
  ℕ, String, Bool, true, false, ◌&&◌, not, Option, none, some, List, [], ◌∷◌, str_eq, ltb, ◌==◌,
  if◌then◌else◌, is_some, any, Result, ok, err, ◌>>=◌, ◌>>◌, raise_if, or_raise,
}
use context_rollover_guard.Json.{
  put, Json, Items, Members, null, int, real, str, arr, obj, nil, cons, end, member, get, same,
}
use context_rollover_guard.Prelude.Int.{ℤ, pos}
use context_rollover_guard.Session.{
  SessionState, Platform, State, Mode, Real, fraction, validate, mode_a, mode_b, mode_c, normal,
  armed, preparing, starting, forwarding, archiving, emergency, recovery,
}
use context_rollover_guard.Session.Dict.{state_value, mode_value, dict_of}

pub data StoreError : Type 0 where
  corrupt future_schema recovery_required conflict no_state unsafe_file invalid_state io_failure :
      StoreError

-- json.loads(raw), and canonical(value)
pub record Codec : Type 0 where
  pub parse : String → Option Json
  pub print : Json → String

abbrev has_key : String → Members → Bool
has_key k m = is_some (get k m)

-- _pairs, at every object of a document
unfoldable mutual
  unfolding get

  pub unique : Json → Bool
  unique (arr xs) = unique_items xs
  unique (obj m) = unique_members m
  unique _ = true

  pub unique_items : Items → Bool
  unique_items nil = true
  unique_items (cons x xs) = unique x && unique_items xs

  pub unique_members : Members → Bool
  unique_members end = true
  unique_members (member k v m) = not (is_some (get k m)) && (unique v && unique_members m)

-- `d.setdefault(key, value)`
abbrev set_default : String → Json → Members → Members
set_default k v m = if has_key k m then m else put k v m

abbrev required_text : String → Members → Result StoreError String
required_text k m = elim (get k m) [ some (str s) ↦ ok s | _ ↦ err corrupt ]

abbrev pub text_of : Json → Result StoreError (Option String)
text_of null = ok none
text_of (str s) = ok (some s)
text_of _ = err corrupt

abbrev pub count_of : Json → Result StoreError (Option ℤ)
count_of null = ok none
count_of (int n) = ok (some n)
count_of _ = err corrupt

abbrev pub risk_of : Json → Result StoreError (Option Real)
risk_of null = ok none
risk_of (int n) = ok (some (fraction n 0))
risk_of (real n d) = ok (some (fraction n d))
risk_of _ = err corrupt

-- A key that the payload lacks has the default None.
abbrev pub or_null : String → Members → Json
or_null k m = elim (get k m) [ none ↦ null | some v ↦ v ]

abbrev states : List State
states = normal ∷ armed ∷ preparing ∷ starting ∷ forwarding ∷ archiving ∷ emergency ∷ recovery ∷ []

abbrev modes : List Mode
modes = mode_a ∷ mode_b ∷ mode_c ∷ []

unfoldable pub named_state : String → List State → Option State
named_state name [] = none
named_state name (s ∷ rest) =
    let other = named_state name rest in if str_eq (state_value s) name then some s else other

unfoldable pub named_mode : String → List Mode → Option Mode
named_mode name [] = none
named_mode name (m ∷ rest) =
    let other = named_mode name rest in if str_eq (mode_value m) name then some m else other

-- State(self.state), Mode(self.mode)
abbrev pub state_of : Json → Result StoreError State
state_of (str name) = or_raise (named_state name states) corrupt
state_of _ = err corrupt

abbrev pub mode_of : Json → Result StoreError Mode
mode_of (str name) = or_raise (named_mode name modes) corrupt
mode_of _ = err corrupt

abbrev pub members_of : Json → Result StoreError Members
members_of (obj m) = ok m
members_of _ = err corrupt

abbrev pub or_default : String → Json → Members → Json
or_default k v m = elim (get k m) [ none ↦ v | some w ↦ w ]

abbrev fields : List String
fields =
    "cwd" ∷ "effective_auto_compact_limit" ∷ "last_active_context_tokens" ∷ "last_turn_id" ∷ "mode"
    ∷ "model" ∷ "model_context_window" ∷ "pending_answer_path" ∷ "predicted_next_growth"
    ∷ "recovery_reason" ∷ "revision" ∷ "risk_score" ∷ "rollover_id" ∷ "safety_buffer"
    ∷ "schema_version" ∷ "session_id" ∷ "state" ∷ "telemetry" ∷ "thread_id" ∷ "threshold_source"
    ∷ "updated_at" ∷ "workspace_id" ∷ []

unfoldable pub known_fields : Members → Bool
known_fields end = true
known_fields (member k v m) = any (str_eq k) fields && known_fields m

abbrev schema_of : Json → Result StoreError ℤ
schema_of (int n) = ok n
schema_of _ = err corrupt

-- SessionState(**payload): a field of a wrong type fails the checks of `validate`.
unfoldable pub state_from : String → Members → Result StoreError SessionState
state_from now m = do
  raise_if (not (known_fields m)) corrupt
  workspace_id ← required_text "workspace_id" m
  session_id ← required_text "session_id" m
  thread_id ← required_text "thread_id" m
  cwd ← required_text "cwd" m
  schema_version ← schema_of (or_default "schema_version" (int (pos 1)) m)
  state ← state_of (or_default "state" (str "NORMAL") m)
  mode ← mode_of (or_default "mode" (str "MODE_A") m)
  revision ← count_of (or_default "revision" (int (pos 0)) m)
  updated ← text_of (or_default "updated_at" (str now) m)
  updated_at ← or_raise updated corrupt
  last_turn_id ← text_of (or_null "last_turn_id" m)
  model ← text_of (or_null "model" m)
  last_active_context_tokens ← count_of (or_null "last_active_context_tokens" m)
  model_context_window ← count_of (or_null "model_context_window" m)
  effective_auto_compact_limit ← count_of (or_null "effective_auto_compact_limit" m)
  predicted_next_growth ← count_of (or_null "predicted_next_growth" m)
  safety_buffer ← count_of (or_null "safety_buffer" m)
  risk_score ← risk_of (or_null "risk_score" m)
  threshold_source ← text_of (or_null "threshold_source" m)
  pending_answer_path ← text_of (or_null "pending_answer_path" m)
  rollover_id ← text_of (or_null "rollover_id" m)
  recovery_reason ← text_of (or_null "recovery_reason" m)
  telemetry ← members_of (or_default "telemetry" (obj end) m)
  ok (record {
    workspace_id = workspace_id;
    session_id = session_id;
    thread_id = thread_id;
    cwd = cwd;
    schema_version = schema_version;
    state = state;
    mode = mode;
    revision = revision;
    updated_at = updated_at;
    last_turn_id = last_turn_id;
    model = model;
    last_active_context_tokens = last_active_context_tokens;
    model_context_window = model_context_window;
    effective_auto_compact_limit = effective_auto_compact_limit;
    predicted_next_growth = predicted_next_growth;
    safety_buffer = safety_buffer;
    risk_score = risk_score;
    threshold_source = threshold_source;
    pending_answer_path = pending_answer_path;
    rollover_id = rollover_id;
    recovery_reason = recovery_reason;
    telemetry = telemetry;
  })

-- `type(v) is int` and `v == 1`
abbrev is_one : Option Json → Bool
is_one (some (int (pos n))) = n == 1
is_one _ = false

abbrev is_text : String → Option Json → Bool
is_text s (some (str t)) = str_eq t s
is_text s _ = false

abbrev is_zero : Option Json → Bool
is_zero none = false
is_zero (some v) = same v (int (pos 0))

-- The payload of a file: of an envelope that is intact, or of the plain format that came before it.
unfoldable pub payload_of : Platform → Codec → Members → Result StoreError Json
payload_of p k outer = elim (get "payload" outer) [
  | some payload ↦
      raise_if (not (is_one (get "format_version" outer))) future_schema
      >> (raise_if (not (is_text (p.sha256 (k.print payload)) (get "sha256" outer))) corrupt
          >> ok payload)
  | none ↦ if is_zero (get "schema_version" outer) then ok (obj outer) else err corrupt
]

abbrev pub version_of : Option Json → Result StoreError ℕ
version_of (some (int (pos n))) = ok n
version_of _ = err corrupt

-- The migration of a state of version 0.
unfoldable pub migrated : String → Members → Members
unfolding put
migrated now m = set_default "updated_at" (str now) (
    set_default "revision" (int (pos 0)) (
      put "recovery_reason" (str "MIGRATED_V0_REQUIRES_RECONCILIATION")
        (put "state" (str (state_value recovery)) (put "schema_version" (int (pos 1)) m))))

abbrev pub checked_state : Platform → SessionState → Result StoreError SessionState
checked_state p s = elim (validate p s) [ ok t ↦ ok t | err e ↦ err corrupt ]

unfoldable pub decode_payload : Platform → String → Members → Result StoreError SessionState
decode_payload p now payload = do
  version ← version_of (get "schema_version" payload)
  raise_if (ltb 1 version) future_schema
  s ← state_from now (if version == 0 then migrated now payload else payload)
  checked_state p s

unfoldable pub decode_document : Platform → Codec → String → Json → Result StoreError SessionState
decode_document p k now document = do
  raise_if (not (unique document)) corrupt
  outer ← members_of document
  payload ← payload_of p k outer
  m ← members_of payload
  decode_payload p now m

unfoldable pub decode : Platform → Codec → String → String → Result StoreError SessionState
decode p k now raw = elim (k.parse raw) [
  | none ↦ err corrupt
  | some document ↦ decode_document p k now document
]

-- The envelope of a state.
unfoldable pub envelope : Platform → Codec → SessionState → Json
envelope p k s = obj (
    member "format_version" (int (pos 1)) (
      member "payload" (obj (dict_of s))
        (member "sha256" (str (p.sha256 (k.print (obj (dict_of s))))) end)))

-- encode; `to_dict` validates first
unfoldable pub encode : Platform → Codec → SessionState → Result StoreError String
encode p k s = elim (validate p s) [
  | ok t ↦ ok (k.print (envelope p k s))
  | err e ↦ err invalid_state
]
