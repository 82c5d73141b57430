-- ===== src/Tests/Session.antt =====
-- Sessions on a small platform: the transitions of one rollover.
use context_rollover_guard.Json.{end}
use context_rollover_guard.Prelude.Int.{pos}
use context_rollover_guard.Prelude.{
  str_append, String, ◌⊎◌, ◌≡◌, refl, true, none, some, List, [], ◌∷◌, any,
}
use context_rollover_guard.Session.{
  mode_b, SessionState, Platform, Evidence, State, armed, normal, preparing, starting, forwarding,
  archiving, validate, transition, check_move,
}
use context_rollover_guard.Session.Moves.{Move, transition_sound}
use context_rollover_guard.Session.Protocol.{Call, follow, follow-evidence, handed_off}

abbrev joined : List String → String
joined [] = ""
joined (t ∷ ts) = str_append t (str_append "," (joined ts))

abbrev pub small : Platform
small = record {
  sha256 = λ s. s;
  resolve = λ s. s;
  is_absolute = λ s. true;
  base_name = λ s. s;
  child_path = λ d n. n;
  canonical = joined;
  has_timezone = λ s. some true;
}

abbrev pub session : SessionState
session = record {
  workspace_id = "/w";
  session_id = "s";
  thread_id = "old";
  cwd = "/w";
  schema_version = pos 1;
  state = armed;
  mode = mode_b;
  revision = some (pos 3);
  updated_at = "t";
  last_turn_id = some "turn";
  model = none;
  last_active_context_tokens = some (pos 9);
  model_context_window = none;
  effective_auto_compact_limit = none;
  predicted_next_growth = none;
  safety_buffer = none;
  risk_score = none;
  threshold_source = none;
  pending_answer_path = none;
  rollover_id = none;
  recovery_reason = none;
  telemetry = end;
}

abbrev at_state : State → SessionState
at_state s = record session { state = s; updated_at = "now" }

abbrev all_evidence : Evidence
all_evidence = record {
  prompt_persisted = true;
  answer_archived = true;
  handoff_written = true;
  new_thread_started = true;
  turn_accepted = true;
  transaction_committed = true;
}

abbrev call_to : State → Call
call_to s = record { now = "now"; target = s; evidence = all_evidence }

abbrev whole_rollover : List Call
whole_rollover =
    call_to preparing
    ∷ call_to starting
    ∷ call_to forwarding
    ∷ call_to archiving
    ∷ call_to normal
    ∷ []

follow-evidence_example :
    (any (λ c. handed_off c.evidence) whole_rollover ≡ true)
    × (any (λ c. c.evidence.new_thread_started) whole_rollover ≡ true)
    × (any (λ c. c.evidence.turn_accepted) whole_rollover ≡ true)
    × (any (λ c. c.evidence.transaction_committed) whole_rollover ≡ true)
unfolding follow transition check_move validate
follow-evidence_example =
    follow-evidence small whole_rollover session (at_state normal) refl refl refl

transition_sound_example :
    ((preparing ≡ armed) × (at_state preparing ≡ session))
    ⊎ (Move all_evidence armed preparing
        × (at_state preparing ≡ record session { state = preparing; updated_at = "now" }))
unfolding transition check_move validate
transition_sound_example =
    transition_sound small "now" session all_evidence preparing (at_state preparing) refl
