-- ===== src/Owned/Walk.antt =====
-- The inputs of a run in order, as `OwnedSession.resume` reads them (crg/owned_client.py).
use context_rollover_guard.Session.{normal}
use context_rollover_guard.Session.Dict.{state_value}
use context_rollover_guard.Owned.Events.{turn_item}
use context_rollover_guard.Rollover.Effects.{Reply}
use context_rollover_guard.Settings.{from_start, item, verify_new_thread, thread_params, Settings}
use context_rollover_guard.Rollover.Checks.{thread_id_of, members_of}
use context_rollover_guard.Errors.{value_error, Exc}
use context_rollover_guard.Owned.Answer.{pending_answer, stopped_at, stored_state, Stores, Host}
use context_rollover_guard.Owned.Files.{
  find, started, load, exists, Name, Files, source, completed, route, input,
}
use context_rollover_guard.Prelude.{
  ℕ, suc, Bool, not, Option, none, some, List, [], ◌∷◌, str_eq, ltb, leb, ◌==◌, if◌then◌else◌,
  Result, ok, ◌>>=◌, ◌>>◌, raise_if, or_raise,
}
use context_rollover_guard.Json.{put, Json, Members, str, same}

-- The numbers of a list in order, each once.
unfoldable pub place : ℕ → List ℕ → List ℕ
place n [] = n ∷ []
place n (m ∷ ms) =
    let rest = place n ms in if ltb n m then n ∷ m ∷ ms else if n == m then m ∷ ms else m ∷ rest

-- The six digits of a name that `input-??????.json` matches.
abbrev has_six_digits : ℕ → Bool
has_six_digits n = leb n 999999

abbrev placed : Name → List ℕ → List ℕ
placed (input n source) ns = if has_six_digits n then place n ns else ns
placed _ ns = ns

-- `sorted(directory.glob('input-??????.json'))`
unfoldable pub numbers : Files → List ℕ
numbers [] = []
numbers ((n, v) ∷ rest) = placed n (numbers rest)

abbrev pub load_dict : Name → Files → Result Exc Members
load_dict n fs = load n fs >>= members_of

-- The thread after the route of an input, where it has one.
unfoldable pub new_thread : Json → Json → Result Exc Json
new_thread thread v = do
  r ← members_of v
  state ← item "state" r
  raise_if (not (same state (str (state_value normal)))) value_error
  old ← item "old_thread_id" r
  raise_if (not (same old thread)) value_error
  item "new_thread_id" r

unfoldable pub routed : Json → Option Json → Result Exc Json
routed thread none = ok thread
routed thread (some v) = new_thread thread v

-- One input: the thread after it, and its receipt.
unfoldable pub finished_input : Files → ℕ → Json → Result Exc (Json × Members)
finished_input fs n thread = do
  raise_if (not (exists (input n completed) fs)) value_error
  receipt ← load_dict (input n completed) fs
  status ← turn_item "status" receipt
  raise_if (not (same status (str "completed"))) value_error
  after ← routed thread (find (input n route) fs)
  at ← item "threadId" receipt
  raise_if (not (same at after)) value_error
  ok (after, receipt)

-- The loop over the inputs: the last thread, and the last receipt.
unfoldable pub walk :
    Files → ℕ → Json → Option Members → List ℕ → Result Exc (Json × Option Members)
walk fs index thread last [] = ok (thread, last)
walk fs index thread last (n ∷ ns) = do
  raise_if (not (n == index)) value_error
  found ← finished_input fs n thread
  walk fs (suc index) found.0 (some found.1) ns

-- The native Stop of the last input.
unfoldable pub last_stop : Host → Stores → Json → Option Members → Result Exc (Unit {0})
last_stop t stores thread none = ok tt
last_stop t stores thread (some receipt) = do
  stored ← stored_state t stores thread
  turn ← or_raise stored value_error >>= λ s. turn_item "id" receipt
  state ← or_raise (stopped_at turn stored) value_error
  answer ← pending_answer t state
  ok tt

pub record ResumeEnv : Type 0 where
  -- the directory of the run: its files, whether a symbolic link leads to it, and whether it is one
  -- of this workspace's runs
  pub files : Files
  pub symlinked : Bool
  pub own_run : Bool
  pub stores : Stores
  pub reply : Reply Members

-- What a run must be before it is resumed: its settings, its last thread and its inputs.
unfoldable pub resumable : Host → ResumeEnv → Result Exc (Settings × (Json × List ℕ))
resumable t env = do
  raise_if env.symlinked value_error
  raise_if (not env.own_run) value_error
  first ← load_dict started env.files
  v ← from_start t.platform first
  raise_if (not (str_eq v.cwd t.workspace)) value_error
  thread ← thread_id_of first
  found ← walk env.files 1 thread none (numbers env.files)
  last_stop t env.stores found.0 found.1
  ok (v, (found.0, numbers env.files))

-- The parameters of thread/resume. `thread_params` has no `developerInstructions`.
unfoldable pub resume_params : Host → Settings → Json → Result Exc Members
resume_params t v thread = do
  params ← thread_params t.platform v none
  ok (put "threadId" thread params)

unfoldable pub same_thread : Host → Settings → Json → Members → Result Exc (Unit {0})
same_thread t v thread response = do
  verify_new_thread t.platform v response
  id ← thread_id_of response
  raise_if (not (same id thread)) value_error
