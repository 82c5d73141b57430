-- ===== src/Session.antt =====
-- The versioned session state and its legal transitions (crg/domain.py).
-- The type tests of `validate` that hold by the type of a field are those types; every other test
-- is written out. A clock reading is an argument, and what hashing, path resolution and timestamp
-- parsing return is a `Platform`.
pub mod Dict
pub mod Moves
pub mod Protocol
use context_rollover_guard.Prelude.{
  ℕ, suc, ◌≤◌, String, ◌≡◌, Bool, true, false, ◌&&◌, ◌||◌, not, Option, none, some, List, [], ◌∷◌,
  leb, any, all, str_eq, is_some, if◌then◌else◌, Result, ok, err, ◌>>=◌, ◌>>◌, raise_if, or_raise,
}
use context_rollover_guard.Prelude.Int.{ℤ, pos, negsuc, ◌+ℤ◌}
use context_rollover_guard.Json.{Members, Json, obj, end}

pub data Mode : Type 0 where
  mode_a mode_b mode_c : Mode

pub data State : Type 0 where
  normal armed preparing starting forwarding archiving emergency recovery : State

-- `==` of two members of the enumeration.
unfoldable pub same_state : State → State → Bool
same_state normal normal = true
same_state armed armed = true
same_state preparing preparing = true
same_state starting starting = true
same_state forwarding forwarding = true
same_state archiving archiving = true
same_state emergency emergency = true
same_state recovery recovery = true
same_state _ _ = false

unfoldable pub edges : State → List State
edges normal = armed ∷ emergency ∷ []
edges armed = preparing ∷ emergency ∷ []
edges emergency = preparing ∷ []
edges preparing = starting ∷ []
edges starting = forwarding ∷ []
edges forwarding = archiving ∷ []
edges archiving = normal ∷ []
edges recovery = []

-- A Python float: the fraction `n / (d + 1)` that it is, or an infinity or a NaN.
pub data Real : Type 0 where
  fraction : ℤ → ℕ → Real
  not_finite : Real

pub record SessionState : Type 0 where
  pub workspace_id : String
  pub session_id : String
  pub thread_id : String
  pub cwd : String
  pub schema_version : ℤ
  pub state : State
  pub mode : Mode
  pub revision : Option ℤ
  pub updated_at : String
  pub last_turn_id : Option String
  pub model : Option String
  pub last_active_context_tokens : Option ℤ
  pub model_context_window : Option ℤ
  pub effective_auto_compact_limit : Option ℤ
  pub predicted_next_growth : Option ℤ
  pub safety_buffer : Option ℤ
  pub risk_score : Option Real
  pub threshold_source : Option String
  pub pending_answer_path : Option String
  pub rollover_id : Option String
  pub recovery_reason : Option String
  pub telemetry : Members

-- The library calls that the state's checks make.
pub record Platform : Type 0 where
  -- hashlib.sha256(text.encode()).hexdigest()
  pub sha256 : String → String
  -- str(Path(text).resolve()), Path(text).is_absolute()
  pub resolve : String → String
  pub is_absolute : String → Bool
  -- Path(text).name
  pub base_name : String → String
  -- str(Path(directory) / name)
  pub child_path : String → String → String
  -- canonical(texts), decoded: the JSON of a list of texts
  pub canonical : List String → String
  -- datetime.fromisoformat(text): `none` where it raises, else whether it has a time zone
  pub has_timezone : String → Option Bool

pub data Invalid : Type 0 where
  unsupported_schema relative_cwd workspace_mismatch invalid_text bad_timestamp no_timezone :
      Invalid
  invalid_count missing_revision invalid_risk illegal_transition missing_evidence : Invalid

-- `value is not None and value < 0`
abbrev pub negative : Option ℤ → Bool
negative none = false
negative (some (pos n)) = false
negative (some (negsuc n)) = true

-- `math.isfinite(risk) and 0 <= risk <= 1`
unfoldable pub within_unit : Real → Bool
within_unit (fraction (pos n) d) = leb n (suc d)
within_unit (fraction (negsuc n) d) = false
within_unit not_finite = false

abbrev pub invalid_risk_score : Option Real → Bool
invalid_risk_score none = false
invalid_risk_score (some r) = not (within_unit r)

unfoldable pub workspace_id_of : Platform → String → String
workspace_id_of p cwd = p.sha256 (p.resolve cwd)

-- SessionState.create, at the clock reading `now`
unfoldable pub create : Platform → String → String → String → String → SessionState
unfolding workspace_id_of
create p now cwd session_id thread_id = record {
  workspace_id = workspace_id_of p cwd;
  session_id = session_id;
  thread_id = thread_id;
  cwd = p.resolve cwd;
  schema_version = pos 1;
  state = normal;
  mode = mode_a;
  revision = some (pos 0);
  updated_at = now;
  last_turn_id = none;
  model = none;
  last_active_context_tokens = none;
  model_context_window = none;
  effective_auto_compact_limit = none;
  predicted_next_growth = none;
  safety_buffer = none;
  risk_score = none;
  threshold_source = none;
  pending_answer_path = none;
  rollover_id = none;
  recovery_reason = none;
  telemetry = end;
}

-- `schema_version != 1`
abbrev pub unsupported_version : ℤ → Bool
unsupported_version (pos n) = not (leb n 1 && leb 1 n)
unsupported_version (negsuc n) = true

unfoldable pub validate : Platform → SessionState → Result Invalid SessionState
unfolding workspace_id_of within_unit
validate p s = do
  raise_if (unsupported_version s.schema_version) unsupported_schema
  raise_if (not (p.is_absolute s.cwd)) relative_cwd
  raise_if (not (str_eq s.workspace_id (workspace_id_of p s.cwd))) workspace_mismatch
  raise_if (str_eq s.session_id "" || str_eq s.thread_id "" || str_eq s.updated_at "") invalid_text
  zone ← or_raise (p.has_timezone s.updated_at) bad_timestamp
  raise_if (not zone) no_timezone
  raise_if
      (any negative (
        s.revision ∷ s.last_active_context_tokens ∷ s.model_context_window
        ∷ s.effective_auto_compact_limit ∷ s.predicted_next_growth ∷ s.safety_buffer ∷ []))
      invalid_count
  raise_if (not (is_some s.revision)) missing_revision
  raise_if (invalid_risk_score s.risk_score) invalid_risk
  ok s

-- The evidence that a transition is given: which keys of the dictionary are exactly `True`.
pub record Evidence : Type 0 where
  pub prompt_persisted : Bool
  pub answer_archived : Bool
  pub handoff_written : Bool
  pub new_thread_started : Bool
  pub turn_accepted : Bool
  pub transaction_committed : Bool

abbrev pub no_evidence : Evidence
no_evidence = record {
  prompt_persisted = false;
  answer_archived = false;
  handoff_written = false;
  new_thread_started = false;
  turn_accepted = false;
  transaction_committed = false;
}

-- What `required` lists for a target, read in the evidence.
unfoldable pub required : State → Evidence → List Bool
required preparing e = e.prompt_persisted ∷ []
required starting e = e.prompt_persisted ∷ e.answer_archived ∷ e.handoff_written ∷ []
required forwarding e = e.new_thread_started ∷ []
required archiving e = e.turn_accepted ∷ []
required normal e = e.transaction_committed ∷ []
required _ e = []

-- The edge and the evidence that a move to another state needs.
unfoldable pub check_move : State → State → Evidence → Result Invalid (Unit {0})
unfolding same_state edges required
check_move s target e = do
  raise_if (not (same_state target recovery) && not (any (same_state target) (edges s)))
      illegal_transition
  raise_if (any not (required target e)) missing_evidence

unfoldable pub transition :
    Platform → String → SessionState → State → Evidence → Result Invalid SessionState
transition p now s target e = do
  checked ← validate p s
  if same_state target s.state
      then ok s
      else (check_move s.state target e >> ok (record s { state = target; updated_at = now }))
