-- ===== src/Owned/Answer.antt =====
-- The answer that a native Stop left behind (crg/hooks.py, `pending_answer`), and the stored state
-- of a thread as an owned session reads it.
use context_rollover_guard.Settings.{get_or_null}
use context_rollover_guard.StateStore.Store.{read, Disk}
use context_rollover_guard.StateStore.Codec.{Codec, StoreError}
use context_rollover_guard.Session.{Platform, SessionState}
use context_rollover_guard.Errors.{value_error, type_error, runtime_error, Exc}
use context_rollover_guard.Prelude.{
  ℕ, String, Bool, true, false, not, Option, none, some, str_eq, if◌then◌else◌, Result, ok, err,
  ◌>>=◌, ◌>>◌, raise_if, or_raise,
}
use context_rollover_guard.Json.{Json, Members, null, str, obj, end, get, same}

-- What the session finds outside its own files.
pub record Host : Type 0 where
  pub platform : Platform
  pub codec : Codec
  -- str(client.workspace)
  pub workspace : String
  -- root.name, of the directory that the session has
  pub run_name : String
  -- `read_private` of a path; a failure is an exception
  pub read_private : String → Result Exc String
  -- f"{n:06d}"
  pub six_digits : ℕ → String
  -- bytes.decode('utf-8')
  pub decode : String → Option String

-- `state.telemetry.get('guard', {})`, which must have a method `get`
unfoldable pub guard_of : SessionState → Result Exc Members
guard_of s = elim (get "guard" s.telemetry) [
  | none ↦ ok end
  | some (obj m) ↦ ok m
  | some _ ↦ err type_error
]

abbrev same_text : Json → Option String → Bool
same_text (str s) (some t) = str_eq s t
same_text null none = true
same_text _ _ = false

abbrev record_of : Option Json → Result Exc Members
record_of (some (obj m)) = ok m
record_of _ = err value_error

abbrev path_of : Option String → Result Exc String
path_of none = err type_error
path_of (some path) = ok path

unfoldable pub pending_answer : Host → SessionState → Result Exc String
pending_answer t s = do
  guard ← guard_of s
  saved ← record_of (get "pending_answer" guard)
  raise_if (not (same_text (get_or_null "turn_id" saved) s.last_turn_id)) value_error
  raise_if (not (same_text (get_or_null "path" saved) s.pending_answer_path)) value_error
  path ← path_of s.pending_answer_path
  data_bytes ← t.read_private path
  raise_if (not (same (str (t.platform.sha256 data_bytes)) (get_or_null "sha256" saved)))
      value_error
  ok data_bytes

-- `pending_answer(state).decode('utf-8')`
unfoldable pub answer_text : Host → SessionState → Result Exc String
answer_text t s = do data_bytes ← pending_answer t s; or_raise (t.decode data_bytes) value_error

abbrev store_result : Result StoreError (Option SessionState) → Result Exc (Option SessionState)
store_result (ok s) = ok s
store_result (err e) = err runtime_error

-- The files of every session's store, and the clock reading of the load.
pub record Stores : Type 0 where
  pub disk : String → Disk
  pub now : String

unfoldable pub read_text : Host → Stores → String → Result Exc (Option SessionState)
read_text t stores thread =
    if str_eq thread ""
    then err value_error
    else store_result (
        read t.platform t.codec
          (record { cwd = t.platform.resolve t.workspace; session_id = thread }) stores.now
          (stores.disk thread))

-- `StateStore(states, workspace, thread).read()`
unfoldable pub stored_state : Host → Stores → Json → Result Exc (Option SessionState)
stored_state t stores (str thread) = read_text t stores thread
stored_state t stores _ = err value_error

-- `state is None or state.last_turn_id != turn`, negated
unfoldable pub stopped_at : Json → Option SessionState → Option SessionState
stopped_at turn none = none
stopped_at turn (some s) = if same_text turn s.last_turn_id then some s else none
