-- ===== src/Owned/Checks.antt =====
-- The tests of an owned session, which read and raise but change nothing (crg/owned_client.py).
use context_rollover_guard.Owned.Answer.{Host}
use context_rollover_guard.Rollover.Checks.{members_of}
use context_rollover_guard.Settings.Requested.{verify_requested}
use context_rollover_guard.Settings.{thread_params, get_or_null, Settings, item}
use context_rollover_guard.Errors.{value_error, Exc}
use context_rollover_guard.Prelude.{false, not, none, some, Result, ok, ◌>>=◌, ◌>>◌, raise_if}
use context_rollover_guard.Json.{put, Json, Members, bool, str, get, same}

-- `settings.verify_requested(params)`, and that thread parameters can be built from the settings.
unfoldable pub usable : Host → Members → Settings → Result Exc (Unit {0})
usable t params v = do verify_requested v params; again ← thread_params t.platform v none; ok tt

-- `response['thread'].get('cwd') != str(self.client.workspace)`
unfoldable pub same_workspace : Host → Members → Result Exc (Unit {0})
same_workspace t response = do
  thread ← item "thread" response >>= members_of
  raise_if (not (same (get_or_null "cwd" thread) (str t.workspace))) value_error

-- `dict(params, cwd=…, ephemeral=False)`
unfoldable pub start_params : Host → Members → Members
start_params t params = put "ephemeral" (bool false) (put "cwd" (str t.workspace) params)

abbrev pub requested_cwd : Host → Members → Json
requested_cwd t params = elim (get "cwd" params) [ none ↦ str t.workspace | some v ↦ v ]
