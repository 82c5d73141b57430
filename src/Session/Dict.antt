-- ===== src/Session/Dict.antt =====
-- The dictionary of a session state (crg/domain.py, `to_dict`): the values of its fields by name.
use context_rollover_guard.Prelude.{String, Option, none, some, List, [], ◌∷◌}
use context_rollover_guard.Prelude.Int.{ℤ}
use context_rollover_guard.Json.{obj, Json, Members, null, int, real, str, end, member}
use context_rollover_guard.Session.{
  SessionState, State, Mode, Real, fraction, mode_a, mode_b, mode_c, normal, armed, preparing,
  starting, forwarding, archiving, emergency, recovery,
}

abbrev pub state_value : State → String
state_value normal = "NORMAL"
state_value armed = "ARMED"
state_value preparing = "ROLLOVER_PREPARING"
state_value starting = "ROLLOVER_STARTING_THREAD"
state_value forwarding = "ROLLOVER_FORWARDING"
state_value archiving = "ROLLOVER_ARCHIVING"
state_value emergency = "EMERGENCY"
state_value recovery = "RECOVERY_REQUIRED"

abbrev pub mode_value : Mode → String
mode_value mode_a = "MODE_A"
mode_value mode_b = "MODE_B"
mode_value mode_c = "MODE_C"

abbrev pub text_or_null : Option String → Json
text_or_null none = null
text_or_null (some s) = str s

abbrev pub count_or_null : Option ℤ → Json
count_or_null none = null
count_or_null (some n) = int n

-- An infinity or a NaN does not pass `validate`, which `to_dict` calls first.
abbrev pub risk_or_null : Option Real → Json
risk_or_null (some (fraction n d)) = real n d
risk_or_null _ = null

abbrev pub entries : List (String × Json) → Members
entries [] = end
entries ((k, v) ∷ rest) = member k v (entries rest)

-- asdict(self), in the order in which `canonical` writes the keys
unfoldable pub dict_of : SessionState → Members
dict_of s = entries (
    ("cwd", str s.cwd)
    ∷ ("effective_auto_compact_limit", count_or_null s.effective_auto_compact_limit)
    ∷ ("last_active_context_tokens", count_or_null s.last_active_context_tokens)
    ∷ ("last_turn_id", text_or_null s.last_turn_id)
    ∷ ("mode", str (mode_value s.mode))
    ∷ ("model", text_or_null s.model)
    ∷ ("model_context_window", count_or_null s.model_context_window)
    ∷ ("pending_answer_path", text_or_null s.pending_answer_path)
    ∷ ("predicted_next_growth", count_or_null s.predicted_next_growth)
    ∷ ("recovery_reason", text_or_null s.recovery_reason)
    ∷ ("revision", count_or_null s.revision)
    ∷ ("risk_score", risk_or_null s.risk_score)
    ∷ ("rollover_id", text_or_null s.rollover_id)
    ∷ ("safety_buffer", count_or_null s.safety_buffer)
    ∷ ("schema_version", int s.schema_version)
    ∷ ("session_id", str s.session_id)
    ∷ ("state", str (state_value s.state))
    ∷ ("telemetry", obj s.telemetry)
    ∷ ("thread_id", str s.thread_id)
    ∷ ("threshold_source", text_or_null s.threshold_source)
    ∷ ("updated_at", str s.updated_at)
    ∷ ("workspace_id", str s.workspace_id)
    ∷ [])
