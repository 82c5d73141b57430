-- ===== src/StateStore/Store.antt =====
-- The files of one session and the operations `_load`, `read`, `update` and `repair`
-- (crg/state_store.py). The lock makes each of them one step. A clock reading is an argument.
use context_rollover_guard.Prelude.{
  String, Bool, true, false, ◌&&◌, ◌||◌, not, Option, none, some, List, ◌∷◌, str_eq, if◌then◌else◌,
  Result, ok, err, ◌>>=◌, ◌>>◌, raise_if,
}
use context_rollover_guard.Json.{int, obj, get, same}
use context_rollover_guard.Prelude.Int.{ℤ, pos, ◌+ℤ◌}
use context_rollover_guard.Numbers.{same_count}
use context_rollover_guard.Session.{
  workspace_id_of, SessionState, Platform, Evidence, recovery, same_state, validate, transition,
}
use context_rollover_guard.Session.Dict.{dict_of}
use context_rollover_guard.StateStore.Codec.{
  Codec, StoreError, corrupt, recovery_required, conflict, no_state, unsafe_file, invalid_state,
  io_failure, decode, encode,
}

-- What `_read_bytes` meets: no file, a file that it refuses, or bytes.
pub data File : Type 0 where
  absent refused : File
  bytes : String → File

pub record Disk : Type 0 where
  pub primary : File
  pub backup : File
  -- an incomplete temporary file that a dead process left
  pub leftover : Bool
  -- the files `state.corrupt.….json`, the newest first
  pub quarantine : List String

-- The store's workspace and session.
pub record Owner : Type 0 where
  pub cwd : String
  pub session_id : String

-- What becomes of one `_atomic`: it completes; it raises or the process dies before the rename, or
-- after it. A process that dies before it leaves its temporary file.
pub data Fate : Type 0 where
  completes raises_before dies_before raises_after dies_after : Fate

pub data Ending (A : Type 0) : Type 0 where
  returns : A → Ending A
  raises : StoreError → Ending A
  dies : Ending A

-- _atomic, where the rename turns the first disk into the second
unfoldable pub atomic : Fate → (Disk → Disk) → Disk → Ending (Unit {0}) × Disk
atomic completes renamed d = (returns tt, renamed d)
atomic raises_before renamed d = (raises io_failure, d)
atomic dies_before renamed d = (dies, record d { leftover = true })
atomic raises_after renamed d = (raises io_failure, renamed d)
atomic dies_after renamed d = (dies, renamed d)

abbrev pub then_do :
    {A : Type 0} → Ending (Unit {0}) × Disk → (Disk → Ending A × Disk) → Ending A × Disk
then_do (returns done, d) f = f d
then_do (raises e, d) f = (raises e, d)
then_do (dies, d) f = (dies, d)

-- An update is its arguments; `mutate` may raise.
pub record Change : Type 0 where
  pub mutate : SessionState → Result StoreError SessionState
  pub initial : Option SessionState
  pub expected_revision : Option ℤ
  pub evidence : Evidence

-- What an update decides before it writes: to keep the state, or to write a new one and a backup.
pub data Decision : Type 0 where
  keep : SessionState → Decision
  write : SessionState → String → String → Decision

abbrev pub is_corrupt : StoreError → Bool
is_corrupt corrupt = true
is_corrupt _ = false

-- `expected_revision is not None and base.revision != expected_revision`
abbrev pub stale : Option ℤ → Option ℤ → Bool
stale none revision = false
stale (some expected) revision = not (same_count (some expected) revision)

unfoldable pub same_identity : SessionState → SessionState → Bool
same_identity a b =
    str_eq a.workspace_id b.workspace_id
    && str_eq a.cwd b.cwd
    && str_eq a.session_id b.session_id
    && str_eq a.thread_id b.thread_id
    && same_count a.revision b.revision

abbrev pub next_revision : Option ℤ → Option ℤ
next_revision none = none
next_revision (some n) = some (n +ℤ pos 1)

-- `old is not None and candidate == old`
abbrev pub unchanged : Option SessionState → SessionState → Bool
unchanged none candidate = false
unchanged (some old) candidate = same (obj (dict_of candidate)) (obj (dict_of old))

module _ (p : Platform) (k : Codec) (owner : Owner) (at : String) where
  -- _decode
  unfoldable pub decode_own : String → Result StoreError SessionState
  decode_own raw = do
    s ← decode p k at raw
    raise_if
        (not (str_eq s.cwd owner.cwd)
          || not (str_eq s.workspace_id (workspace_id_of p owner.cwd))
          || not (str_eq s.session_id owner.session_id))
        corrupt
    ok s

  -- The state that a readable backup stands for.
  abbrev pub fallback : SessionState → SessionState
  fallback s = record s {
    state = recovery;
    recovery_reason = some "PRIMARY_MISSING_OR_CORRUPT";
    updated_at = at;
  }

  -- The second half of `_load`; `damaged` is whether there was a primary file.
  unfoldable pub load_backup : Bool → Disk → Result StoreError (Option SessionState × Bool)
  load_backup damaged d = elim d.backup [
    | refused ↦ err unsafe_file
    | bytes raw ↦ elim (decode_own raw) [ ok s ↦ ok (some (fallback s), true) | err e ↦ err e ]
    | absent ↦ if damaged || d.leftover then err corrupt else ok (none, false)
  ]

  unfoldable pub load : Disk → Result StoreError (Option SessionState × Bool)
  load d = elim d.primary [
    | refused ↦ err unsafe_file
    | bytes raw ↦ elim (decode_own raw) [
      | ok s ↦ ok (some s, false)
      | err e ↦ elim (is_corrupt e) [ true ↦ load_backup true d | false ↦ err e ]
    ]
    | absent ↦ load_backup false d
  ]

  unfoldable pub read : Disk → Result StoreError (Option SessionState)
  read d = do loaded ← load d; ok loaded.0

  abbrev pub valid_state : SessionState → Result StoreError SessionState
  valid_state s = elim (validate p s) [ ok t ↦ ok t | err e ↦ err invalid_state ]

  -- The state to start from: the stored one, or `initial` where there is none.
  unfoldable pub base_of :
      Option SessionState × Bool → Option SessionState → Result StoreError SessionState
  base_of (old, true) initial = err recovery_required
  base_of (some old, false) initial =
      if same_state old.state recovery then err recovery_required else ok old
  base_of (none, false) (some initial) = valid_state initial
  base_of (none, false) none = err no_state

  abbrev pub legal_move : SessionState → SessionState → Evidence → Result StoreError (Unit {0})
  legal_move base candidate evidence =
      if same_state candidate.state base.state
      then ok tt
      else (elim (transition p at base candidate.state evidence) [
        | ok t ↦ ok tt
        | err e ↦ err invalid_state
      ])

  unfoldable pub check_candidate :
      SessionState → Evidence → SessionState → Result StoreError (Unit {0})
  check_candidate base evidence candidate = do
    candidate' ← valid_state candidate
    raise_if (not (same_identity candidate base)) invalid_state
    raw ← encode p k candidate
    again ← decode_own raw
    legal_move base candidate evidence

  unfoldable pub advanced : SessionState → SessionState → SessionState
  advanced base candidate = record candidate {
    revision = next_revision base.revision;
    updated_at = at;
  }

  abbrev pub backup_of : Option SessionState → String → Result StoreError String
  backup_of none data_bytes = ok data_bytes
  backup_of (some old) data_bytes = encode p k old

  unfoldable pub decide : Change → Option SessionState × Bool → Result StoreError Decision
  decide change loaded = do
    base ← base_of loaded change.initial
    raise_if (stale change.expected_revision base.revision) conflict
    candidate ← change.mutate base
    check_candidate base change.evidence candidate
    if unchanged loaded.0 candidate then ok (keep base) else (do
      data_bytes ← encode p k (advanced base candidate)
      backup ← backup_of loaded.0 data_bytes
      ok (write (advanced base candidate) data_bytes backup))

  unfoldable pub carry_out :
      Fate → Fate → Result StoreError Decision → Disk → Ending SessionState × Disk
  carry_out first second (err e) d = (raises e, d)
  carry_out first second (ok (keep s)) d = (returns s, d)
  carry_out first second (ok (write s data_bytes backup)) d =
      then_do (atomic first (λ x. record x { backup = bytes backup }) d) λ d'.
        then_do (atomic second (λ x. record x { primary = bytes data_bytes }) d')
          λ d''. (returns s, d'')

  unfoldable pub update : Change → Fate → Fate → Disk → Ending SessionState × Disk
  update change first second d =
      carry_out first second (load d >>= λ loaded. decide change loaded) d

  -- `json.loads(raw).get("schema_version") == 0` of the primary file
  unfoldable pub is_legacy : File → Bool
  is_legacy (bytes raw) = elim (k.parse raw) [
    | some (obj m) ↦ elim (get "schema_version" m) [ none ↦ false | some v ↦ same v (int (pos 0)) ]
    | _ ↦ false
  ]
  is_legacy _ = false

  abbrev repaired : SessionState → SessionState
  repaired s = record s { revision = next_revision s.revision; updated_at = at }

  -- The damaged primary file is put aside before the repaired state is written.
  unfoldable pub quarantined : Fate → File → Disk → Ending (Unit {0}) × Disk
  quarantined fate (bytes raw) d = atomic fate (λ x. record x { quarantine = raw ∷ x.quarantine }) d
  quarantined fate _ d = (returns tt, d)

  unfoldable pub restore : Fate → Fate → SessionState → Disk → Ending SessionState × Disk
  restore first second s d = then_do (quarantined first d.primary d) λ d'.
      elim (encode p k (repaired s)) [
        | err e ↦ (raises e, d')
        | ok raw ↦
            then_do (atomic second (λ x. record x { primary = bytes raw }) d')
              λ d''. (returns (repaired s), d'')
      ]

  unfoldable pub repair : Fate → Fate → Disk → Ending SessionState × Disk
  repair first second d = elim (load d) [
    | err e ↦ (raises e, d)
    | ok (none, damaged) ↦ (raises no_state, d)
    | ok (some s, true) ↦ restore first second s d
    | ok (some s, false) ↦ if is_legacy d.primary then restore first second s d else (returns s, d)
  ]
