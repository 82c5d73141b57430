-- ===== src/Rollover/Checks.antt =====
-- The tests of a rollover, which read and raise but change nothing (crg/coordinator.py).
use context_rollover_guard.Prelude.{
  [], ◌∷◌, String, Bool, true, false, Option, none, some, ◌||◌, ◌&&◌, not, str_eq, if◌then◌else◌,
  Result, ok, err, ◌>>=◌, ◌>>◌, raise_if, or_raise, any,
}
use context_rollover_guard.Json.{Json, str, arr, nil, obj, Members, same}
use context_rollover_guard.Errors.{Exc, value_error, key_error, type_error, transaction_error}
use context_rollover_guard.Session.{Invalid, Platform, SessionState, validate}
use context_rollover_guard.Settings.{verify_new_thread, item, get_or_null}
use context_rollover_guard.Rollover.Effects.{Journal, Prepared, Accepted}

-- The prompt file of the archive.
pub record PromptFile : Type 0 where
  pub text : String
  pub old_thread_id : String

-- What a run finds outside its journal directory.
pub record Site : Type 0 where
  pub rid : String
  -- str(client.workspace)
  pub workspace : String
  -- the rollover that claimed a source, by workspace and thread
  pub claim : String → String → Option String
  -- `ArchiveManager.verify` of a directory, and the prompt file that it holds
  pub archive : String → Result Exc PromptFile
  -- self.archive_source
  pub archive_source : Bool
  -- sha(canonical(params)) of the parameters of thread/start
  pub params_sha : Members → String

pub record Context : Type 0 where
  pub prepared : Prepared
  pub prompt : String

abbrev pub claimed_by : Option String → String → Bool
claimed_by none rid = false
claimed_by (some r) rid = str_eq r rid

abbrev pub validated : Result Invalid SessionState → Result Exc SessionState
validated (ok s) = ok s
validated (err e) = err value_error

-- _context
unfoldable pub context : Platform → Site → Journal → Result Exc Context
context p site j = do
  prepared ← or_raise j.prepared transaction_error
  source ← validated (validate p prepared.source)
  raise_if (not (claimed_by (site.claim source.workspace_id source.thread_id) site.rid))
      transaction_error
  file ← site.archive prepared.archive
  raise_if
      (not (str_eq (p.base_name prepared.archive) site.rid)
        || not (str_eq source.cwd site.workspace))
      transaction_error
  raise_if
      (not (str_eq (p.sha256 file.text) prepared.prompt_sha256)
        || not (str_eq file.old_thread_id source.thread_id))
      transaction_error
  ok (record { prepared = prepared; prompt = file.text })

abbrev pub members_of : Json → Result Exc Members
members_of (obj m) = ok m
members_of _ = err type_error

-- started['thread']['id']
unfoldable pub thread_id_of : Members → Result Exc Json
thread_id_of started = do thread ← item "thread" started >>= members_of; item "id" thread

-- The new thread has the settings of the source, is another thread, empty, in the same directory.
unfoldable pub check_thread : Platform → Context → Members → Result Exc Json
check_thread p c response = do
  verify_new_thread p c.prepared.settings response
  thread ← item "thread" response >>= members_of
  new ← item "id" thread
  raise_if
      (same new (str c.prepared.source.thread_id)
        || not (same (get_or_null "turns" thread) (arr nil)))
      transaction_error
  raise_if (not (same (get_or_null "cwd" thread) (str c.prepared.source.cwd))) transaction_error
  ok new

-- `except (ValueError, KeyError, TransactionError)`
unfoldable pub is_settings_failure : Exc → Bool
is_settings_failure value_error = true
is_settings_failure key_error = true
is_settings_failure transaction_error = true
is_settings_failure _ = false

abbrev nonempty_text : Json → Result Exc String
nonempty_text (str s) = if str_eq s "" then err transaction_error else ok s
nonempty_text _ = err transaction_error

abbrev confirmed_status : Json → Bool
confirmed_status (str s) = any (str_eq s) ("inProgress" ∷ "completed" ∷ [])
confirmed_status _ = false

-- The receipt that a response to turn/start gives.
unfoldable pub receipt_of : Context → Json → Members → Result Exc Accepted
receipt_of c new response = do
  turn ← item "turn" response >>= members_of
  id ← nonempty_text (get_or_null "id" turn)
  raise_if (not (confirmed_status (get_or_null "status" turn))) transaction_error
  ok (record {
    thread_id = new;
    turn_id = id;
    client_message_id = c.prepared.client_message_id;
    prompt_sha256 = c.prepared.prompt_sha256;
    source = "turn/start response";
  })

-- A receipt found in the journal is for this thread and this prompt.
unfoldable pub receipt_matches : Context → Json → Accepted → Bool
receipt_matches c new a = same a.thread_id new && str_eq a.prompt_sha256 c.prepared.prompt_sha256
