-- ===== src/Tests/Submit.antt =====
-- A prompt that is sent on the thread of the session and answered, and one whose turn never ends.
use context_rollover_guard.Session.Dict.{dict_of}
use context_rollover_guard.StateStore.Codec.{
  unique, payload_of, decode_payload, state_from, known_fields, named_state, named_mode, decode,
  decode_document,
}
use context_rollover_guard.Settings.{turn_params}
use context_rollover_guard.Owned.Blocks.{submit-Refuses, Refuses}
use context_rollover_guard.Rollover.Prepare.{Office}
use context_rollover_guard.Errors.{os_error}
use context_rollover_guard.Owned.Answer.{
  stopped_at, answer_text, pending_answer, guard_of, stored_state, read_text, Stores,
}
use context_rollover_guard.Owned.Returned.{submit-Recorded, Recorded}
use context_rollover_guard.Owned.Files.{same_name, install, find, outcome, returns, raises}
use context_rollover_guard.Owned.Events.{
  accepted_turn, turn_item, classify, finished_answer, choose, arrives, Arrival, Output,
}
use context_rollover_guard.Rollover.Effects.{replies, written}
use context_rollover_guard.StateStore.Store.{decode_own, read, load, load_backup, absent}
use context_rollover_guard.Session.{validate, armed}
use context_rollover_guard.Owned.Submit.{
  forward, complete, await_turn, finish, numbered, protected, attempt, carry, SubmitEnv, submit,
}
use context_rollover_guard.Owned.Session.{call, write, block, emit, Session}
use context_rollover_guard.Tests.Owned.{host, stores}
use context_rollover_guard.Tests.Rollover.{settings, smooth}
use context_rollover_guard.Prelude.{◌≡◌, refl, ◌⊎◌, false, some, [], ◌∷◌, ok, err}
use context_rollover_guard.Json.{Members, null, str, obj, end, member, get, same}

abbrev chat : Session
chat = record {
  thread = some (str "th");
  settings = some settings;
  blocked = false;
  sequence = 0;
  files = [];
  registry = record { archives = []; claims = []; journals = [] };
  journals = [];
  sent = [];
  emitted = [];
}

abbrev office : Office
office = record {
  workspace = "/w";
  archive_source = false;
  archived = ok tt;
  archive_write = written;
  archive_root = "/archive";
  claim_write = written;
  prepared_write = written;
}

abbrev accepted_response : Members
accepted_response =
    member "turn" (obj (member "id" (str "t1") (member "status" (str "inProgress") end))) end

abbrev ended : Members
ended =
    member "threadId" (str "th")
      (member "turn" (obj (member "id" (str "t1") (member "status" (str "completed") end))) end)

abbrev completion_event : Arrival
completion_event =
    arrives (member "method" (str "turn/completed") (member "params" (obj ended) end)) (ok tt)

abbrev no_stores : Stores
no_stores = record {
  disk = λ thread. record { primary = absent; backup = absent; leftover = false; quarantine = [] };
  now = "now";
}

abbrev quiet_env : SubmitEnv
quiet_env = record {
  source_write = written;
  transaction_write = written;
  route_write = written;
  intent_write = written;
  accepted_write = written;
  completed_write = written;
  before = no_stores;
  after = stores;
  office = office;
  verify = λ path. err os_error;
  params_sha = λ m. "params";
  run_env = smooth;
  turn_reply = replies accepted_response;
  has_approver = false;
  arrivals = completion_event ∷ [];
}

abbrev silent_env : SubmitEnv
silent_env = record quiet_env { arrivals = [] }

abbrev output : Output
output = record {
  thread_id = str "th";
  turn_id = str "t1";
  text = "bye";
  state = armed;
  prediction = null;
}

abbrev answered_chat : Session
answered_chat = (submit host quiet_env "hi" false chat).1

abbrev blocked_chat : Session
blocked_chat = (submit host silent_env "hi" false chat).1

prompt_is_answered : submit host quiet_env "hi" false chat ≡ (returns output, answered_chat)
unfolding submit numbered write install find outcome protected block attempt stored_state read_text
    read load load_backup emit carry choose forward turn_params same_name call accepted_turn
    turn_item get same complete await_turn classify finish finished_answer decode_own decode
    decode_document unique dict_of payload_of decode_payload state_from known_fields named_state
    named_mode validate stopped_at answer_text pending_answer guard_of
prompt_is_answered = refl

turn_never_ends : submit host silent_env "hi" false chat ≡ (raises os_error, blocked_chat)
unfolding submit numbered write install find outcome protected block attempt stored_state read_text
    read load load_backup emit carry choose forward turn_params same_name call accepted_turn
    turn_item get same complete await_turn
turn_never_ends = refl

submit-Recorded_example : Recorded host quiet_env "hi" false chat answered_chat output
submit-Recorded_example =
    submit-Recorded host quiet_env "hi" false chat answered_chat output prompt_is_answered

submit-Refuses_example : (blocked_chat.sent ≡ chat.sent) ⊎ Refuses blocked_chat
submit-Refuses_example =
    submit-Refuses host silent_env "hi" false chat blocked_chat os_error turn_never_ends
