-- ===== src/Owned/Events.antt =====
-- What `OwnedSession.complete` (crg/owned_client.py) makes of the events that arrive before its
-- deadline, and its last tests.
use context_rollover_guard.Continuity.{Signals}
use context_rollover_guard.Rollover.Checks.{members_of}
use context_rollover_guard.Settings.{item, get_or_null}
use context_rollover_guard.Owned.Answer.{
  guard_of, answer_text, stopped_at, stored_state, Stores, Host,
}
use context_rollover_guard.Errors.{runtime_error, Exc}
use context_rollover_guard.Session.{emergency, armed, normal, same_state, State, SessionState}
use context_rollover_guard.Prelude.{
  String, Bool, false, ◌&&◌, ◌||◌, not, Option, none, some, [], ◌∷◌, if◌then◌else◌, is_some, any,
  Result, ok, err, ◌>>=◌, ◌>>◌, raise_if, or_raise,
}
use context_rollover_guard.Json.{Json, Members, str, end, get, same}

-- The answer that a submission returns.
pub record Output : Type 0 where
  pub thread_id : Json
  pub turn_id : Json
  pub text : String
  pub state : State
  -- the prediction of the native Stop
  pub prediction : Json

-- One round of the loop: an event with what answering it did, where it is a request, or the
-- exception of `next_event`. Rounds without an event are left out.
pub data Arrival : Type 0 where
  arrives : Members → Result Exc (Unit {0}) → Arrival
  breaks : Exc → Arrival

pub data Step : Type 0 where
  skips : Step
  finishes : Members → Step

abbrev pub has_key : String → Members → Bool
has_key k m = is_some (get k m)

abbrev pub params_of : Members → Result Exc Members
params_of event = elim (get "params" event) [ none ↦ ok end | some v ↦ members_of v ]

-- `p['turn'][key]`
unfoldable pub turn_item : String → Members → Result Exc Json
turn_item k p = do turn ← item "turn" p >>= members_of; item k turn

abbrev when_ends : Json → Members → Result Exc Step
when_ends turn p = do id ← turn_item "id" p; if same id turn then ok (finishes p) else ok skips

abbrev about_thread : Json → Json → Members → Members → Result Exc Step
about_thread thread turn event p =
    if not (same (get_or_null "threadId" p) thread)
    then ok skips
    else if same (get_or_null "method" event) (str "turn/completed")
    then when_ends turn p
    else ok skips

-- A request is answered by the approver; without one it ends the turn's wait.
unfoldable pub classify : Bool → Json → Json → Arrival → Result Exc Step
classify has_approver thread turn (breaks e) = err e
classify has_approver thread turn (arrives event answered) =
    if has_key "id" event && has_key "method" event
    then (answered >> (if has_approver then ok skips else err runtime_error))
    else (params_of event >>= about_thread thread turn event)

abbrev pub text_is : String → Json → Bool
text_is s v = same v (str s)

-- The tests after the completion is recorded, and the answer.
unfoldable pub finished_answer : Host → Stores → Json → Json → Members → Result Exc Output
finished_answer t stores thread turn p = do
  status ← turn_item "status" p
  raise_if (not (text_is "completed" status)) runtime_error
  stored ← stored_state t stores thread
  state ← or_raise (stopped_at turn stored) runtime_error
  text ← answer_text t state
  guard ← guard_of state
  ok (record {
    thread_id = thread;
    turn_id = turn;
    text = text;
    state = state.state;
    prediction = get_or_null "stop_prediction" guard;
  })

-- `result['turn']['id']`, of a turn that is accepted
unfoldable pub accepted_turn : Members → Result Exc Json
accepted_turn result = do
  turn ← turn_item "id" result
  status ← turn_item "status" result
  raise_if (not (text_is "inProgress" status || text_is "completed" status)) runtime_error
  ok turn

-- The states in which a thread takes a prompt.
abbrev pub is_live : State → Bool
is_live s = any (same_state s) (normal ∷ armed ∷ emergency ∷ [])

abbrev pub is_pressed : State → Bool
is_pressed s = any (same_state s) (armed ∷ emergency ∷ [])

unfoldable pub signals : Bool → Option SessionState → Signals
signals fresh none = record {
  ambiguous = false;
  explicit_fresh = fresh;
  handoff_done = false;
  native_healthy = false;
  high_pressure = false;
}
signals fresh (some s) = record {
  ambiguous = not (is_live s.state);
  explicit_fresh = fresh;
  handoff_done = false;
  native_healthy = false;
  high_pressure = is_pressed s.state;
}

-- A prompt goes to a fresh thread, to the thread of the session, or nowhere.
pub data Choice : Type 0 where
  migrates : SessionState → Choice
  forwards refuses : Choice

unfoldable pub choose : Bool → Option SessionState → Choice
choose fresh none = forwards
choose fresh (some s) =
    if is_live s.state then (if fresh then migrates s else forwards) else refuses

-- `replace(state, state=State.ARMED.value)` of a state NORMAL
unfoldable pub armed_copy : SessionState → SessionState
armed_copy s = if same_state s.state normal then record s { state = armed } else s
