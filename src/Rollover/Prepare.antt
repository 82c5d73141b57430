-- ===== src/Rollover/Prepare.antt =====
use context_rollover_guard.Prelude.{
  String, str_append, str_eq, Bool, ◌||◌, not, any, Option, none, some, List, [], ◌∷◌, Result, ok,
  err, ◌>>=◌, ◌>>◌, raise_if, or_raise, if◌then◌else◌,
}
use context_rollover_guard.Json.{Members, str, obj, bool, member, end, same}
use context_rollover_guard.Errors.{Exc, value_error, transaction_error, os_error}
use context_rollover_guard.Session.{
  State, SessionState, Platform, validate, same_state, armed, emergency, preparing,
}
use context_rollover_guard.Session.Dict.{entries, text_or_null, dict_of}
use context_rollover_guard.Settings.{Settings, thread_params}
use context_rollover_guard.Rollover.Effects.{
  Answer, returns, leaves, raises, stops, Prepared, Fate, written, failed, failed_durable, stopped,
  stopped_durable,
}
use context_rollover_guard.Rollover.Checks.{validated}

-- `Coordinator.prepare` (crg/coordinator.py): the handoff archive of a prompt, the claim of a source
-- thread and the record `prepared.json`. Each of the three is written under a lock of its own. A
-- rollover's identifier is `rollover_id` of crg/archive.py. Of the archive, only that it is there is
-- modelled; whether it can be written is an argument.

-- What `prepare` finds: the client's workspace, its own options, and the outcomes of its effects.
pub record Office : Type 0 where
  pub workspace : String
  pub archive_source : Bool
  -- what pending_answer and ArchiveManager.prepare raise before the archive is there
  pub archived : Result Exc (Unit {0})
  pub archive_write : Fate
  pub archive_root : String
  pub claim_write : Fate
  pub prepared_write : Fate

-- The rollovers whose archive is there, the claims `source-….json` by key, and the records
-- `prepared.json` by rollover.
pub record Registry : Type 0 where
  pub archives : List String
  pub claims : List (String × String)
  pub journals : List (String × Prepared)

unfoldable pub lookup {ℓ} : {A : Type ℓ} → String → List (String × A) → Option A
lookup k [] = none
lookup k ((j, v) ∷ rest) = let found = lookup k rest in if str_eq j k then some v else found

-- 'source-' + sha(canonical([workspace_id, thread_id]))
unfoldable pub source_key : Platform → String → String → String
source_key p workspace_id thread_id =
    str_append "source-" (p.sha256 (p.canonical (workspace_id ∷ thread_id ∷ [])))

-- rollover_id: every part of the identity is a nonempty text, but for the prompt
unfoldable pub rollover_id_of :
    Platform → String → String → Option String → String → Result Exc String
rollover_id_of p workspace_id thread_id turn prompt = do
  turn ← or_raise turn value_error
  raise_if (str_eq workspace_id "" || str_eq thread_id "" || str_eq turn "") value_error
  ok (
      str_append "crg_"
        (p.sha256 (p.canonical (workspace_id ∷ thread_id ∷ turn ∷ p.sha256 prompt ∷ []))))

abbrev may_prepare : State → Bool
may_prepare s = any (same_state s) (armed ∷ emergency ∷ preparing ∷ [])

-- The tests before anything is written, and the identifier.
unfoldable pub check_source :
    Platform → Office → SessionState → String → Settings → Result Exc String
check_source p o s prompt settings = do
  source ← validated (validate p s)
  raise_if (not (may_prepare source.state)) transaction_error
  raise_if (not (str_eq source.cwd o.workspace) || not (str_eq settings.cwd source.cwd))
      transaction_error
  params ← thread_params p settings none
  rid ← rollover_id_of p source.workspace_id source.thread_id source.last_turn_id prompt
  written_archive ← o.archived
  ok rid

-- An immutable write that turns the first registry into the second.
unfoldable pub keep : Fate → Registry → Registry → Answer (Unit {0}) × Registry
keep written old new = (returns tt, new)
keep failed old new = (raises os_error, old)
keep failed_durable old new = (raises os_error, new)
keep stopped old new = (stops, old)
keep stopped_durable old new = (stops, new)

-- ArchiveManager.prepare: the prompt stays, whatever becomes of its preparation.
unfoldable pub store_archive : Office → String → Registry → Answer (Unit {0}) × Registry
store_archive o rid r = keep o.archive_write r (record r { archives = rid ∷ r.archives })

-- The coordinator's first lock: one rollover for each source thread.
unfoldable pub claim_source :
    Platform → Office → SessionState → String → Registry → Answer (Unit {0}) × Registry
claim_source p o s rid r =
    let key = source_key p s.workspace_id s.thread_id in
    elim (lookup key r.claims) [
      | some claimed ↦ if str_eq claimed rid then (returns tt, r) else (raises transaction_error, r)
      | none ↦ keep o.claim_write r (record r { claims = (key, rid) ∷ r.claims })
    ]

-- settings.values
unfoldable pub settings_dict : Settings → Members
settings_dict v = entries (
    ("cwd", str v.cwd)
    ∷ ("model", v.model)
    ∷ ("modelProvider", v.model_provider)
    ∷ ("approvalPolicy", v.approval_policy)
    ∷ ("approvalsReviewer", v.approvals_reviewer)
    ∷ ("sandbox", v.sandbox)
    ∷ ("serviceTier", v.service_tier)
    ∷ ("reasoningEffort", v.reasoning_effort)
    ∷ ("runtimeWorkspaceRoots", v.runtime_workspace_roots)
    ∷ ("activePermissionProfile", v.active_permission_profile)
    ∷ ("developer_config_sha256", text_or_null v.developer_config_sha256)
    ∷ [])

abbrev archive_source_entry : Option Bool → Members
archive_source_entry none = end
archive_source_entry (some b) = member "archive_source" (bool b) end

-- The payload of prepared.json.
unfoldable pub payload_dict : Prepared → Members
payload_dict d = member "source" (obj (dict_of d.source)) (
    member "settings" (obj (settings_dict d.settings)) (
      member "archive" (str d.archive) (
        member "prompt_sha256" (str d.prompt_sha256) (
          member "client_message_id" (str d.client_message_id)
            (archive_source_entry d.archive_source)))))

unfoldable pub payload :
    Platform → Office → SessionState → String → Settings → String → Option Bool → Prepared
payload p o s prompt settings rid archive_source = record {
  source = s;
  settings = settings;
  archive = p.child_path o.archive_root rid;
  prompt_sha256 = p.sha256 prompt;
  client_message_id = rid;
  archive_source = archive_source;
}

-- The coordinator's second lock: the record, or the comparison with the record that is there, whose own
-- `archive_source` is kept.
unfoldable pub record_prepared :
    Platform
    → Office
    → SessionState
    → String
    → Settings
    → String
    → Registry
    → Answer String × Registry
record_prepared p o s prompt settings rid r = elim (lookup rid r.journals) [
  | some initial ↦
      if same (obj (payload_dict initial))
        (obj (payload_dict (payload p o s prompt settings rid initial.archive_source)))
      then (returns rid, r)
      else (raises transaction_error, r)
  | none ↦
      let new = payload p o s prompt settings rid (some o.archive_source) in
      let (a, r') = keep o.prepared_write r (record r { journals = (rid, new) ∷ r.journals }) in
      (
        elim a [
          | returns done ↦ returns rid
          | leaves report ↦ leaves report
          | raises e ↦ raises e
          | stops ↦ stops
        ],
        r',
      )
]

abbrev pub then_record :
    Platform
    → Office
    → SessionState
    → String
    → Settings
    → String
    → Answer (Unit {0}) × Registry
    → Answer String × Registry
then_record p o s prompt settings rid (returns done, r) =
    record_prepared p o s prompt settings rid r
then_record p o s prompt settings rid (leaves report, r) = (leaves report, r)
then_record p o s prompt settings rid (raises e, r) = (raises e, r)
then_record p o s prompt settings rid (stops, r) = (stops, r)

abbrev pub then_claim :
    Platform
    → Office
    → SessionState
    → String
    → Settings
    → String
    → Answer (Unit {0}) × Registry
    → Answer String × Registry
then_claim p o s prompt settings rid (returns done, r) =
    then_record p o s prompt settings rid (claim_source p o s rid r)
then_claim p o s prompt settings rid (leaves report, r) = (leaves report, r)
then_claim p o s prompt settings rid (raises e, r) = (raises e, r)
then_claim p o s prompt settings rid (stops, r) = (stops, r)

unfoldable pub prepare_checked :
    Platform
    → Office
    → SessionState
    → String
    → Settings
    → Result Exc String
    → Registry
    → Answer String × Registry
prepare_checked p o s prompt settings (err e) r = (raises e, r)
prepare_checked p o s prompt settings (ok rid) r =
    then_claim p o s prompt settings rid (store_archive o rid r)

unfoldable pub prepare :
    Platform → Office → SessionState → String → Settings → Registry → Answer String × Registry
prepare p o s prompt settings r =
    prepare_checked p o s prompt settings (check_source p o s prompt settings) r
