-- ===== src/Settings.antt =====
-- The execution settings of an owned thread (crg/appserver.py, `ExecutionSettings`).
-- A response is the dictionary that the runtime returned.
pub mod Requested
use context_rollover_guard.Prelude.Int.{neg_part, pos_part}
use context_rollover_guard.Prelude.{
  ◌==◌, ◌+◌, String, Bool, true, false, ◌&&◌, ◌||◌, not, Option, none, some, List, [], ◌∷◌, str_eq,
  is_some, any, if◌then◌else◌, Result, ok, err, ◌>>=◌, ◌>>◌, raise_if, or_raise,
}
use context_rollover_guard.Json.{
  real, int, Json, null, bool, str, arr, obj, nil, cons, end, member, Members, get, same,
}
use context_rollover_guard.Session.{Platform}
use context_rollover_guard.Errors.{Exc, value_error, key_error, type_error}

pub record Settings : Type 0 where
  pub cwd : String
  pub model : Json
  pub model_provider : Json
  pub approval_policy : Json
  pub approvals_reviewer : Json
  pub sandbox : Json
  pub service_tier : Json
  pub reasoning_effort : Json
  pub runtime_workspace_roots : Json
  pub active_permission_profile : Json
  pub developer_config_sha256 : Option String

-- `d[key]`, and `d.get(key)`
abbrev pub item : String → Members → Result Exc Json
item k m = or_raise (get k m) key_error

abbrev pub get_or_null : String → Members → Json
get_or_null k m = elim (get k m) [ none ↦ null | some v ↦ v ]

abbrev as_text : Json → Result Exc String
as_text (str s) = ok s
as_text _ = err type_error

abbrev developer_sha : Platform → Option Json → Option String
developer_sha p (some (str s)) = some (p.sha256 s)
developer_sha p _ = none

abbrev required_keys : List String
required_keys =
    "cwd" ∷ "model" ∷ "modelProvider" ∷ "approvalPolicy" ∷ "approvalsReviewer" ∷ "sandbox" ∷ []

unfoldable pub from_start : Platform → Members → Result Exc Settings
from_start p r = do
  raise_if (any (λ k. not (is_some (get k r))) required_keys) value_error
  cwd ← as_text (get_or_null "cwd" r)
  raise_if (not (p.is_absolute cwd)) value_error
  ok (record {
    cwd = cwd;
    model = get_or_null "model" r;
    model_provider = get_or_null "modelProvider" r;
    approval_policy = get_or_null "approvalPolicy" r;
    approvals_reviewer = get_or_null "approvalsReviewer" r;
    sandbox = get_or_null "sandbox" r;
    service_tier = get_or_null "serviceTier" r;
    reasoning_effort = get_or_null "reasoningEffort" r;
    runtime_workspace_roots = get_or_null "runtimeWorkspaceRoots" r;
    active_permission_profile = get_or_null "activePermissionProfile" r;
    developer_config_sha256 = developer_sha p (get "developerInstructions" r);
  })

-- `{'type': 'readOnly'}` and `{'type': 'readOnly', 'networkAccess': False}`
abbrev pub read_only : Json
read_only = obj (member "type" (str "readOnly") end)

abbrev pub read_only_offline : Json
read_only_offline = obj (member "type" (str "readOnly") (member "networkAccess" (bool false) end))

abbrev pub is_read_only : Json → Bool
is_read_only v = same v read_only_offline || same v read_only

-- Python's truth value.
abbrev pub truthy : Json → Bool
truthy null = false
truthy (bool b) = b
truthy (int n) = not (pos_part n + neg_part n == 0)
truthy (real n d) = not (pos_part n + neg_part n == 0)
truthy (str s) = not (str_eq s "")
truthy (arr nil) = false
truthy (obj end) = false
truthy _ = true

-- `profile.get('id')` of a truthy profile, which is a dictionary
abbrev pub profile_id : Json → Result Exc (Option Json)
profile_id (obj m) = ok (get "id" m)
profile_id _ = err type_error

abbrev truthy_id : Option Json → Bool
truthy_id none = false
truthy_id (some v) = truthy v

-- The permission part of `thread_params`.
unfoldable pub permission_params : Settings → Members → Result Exc Members
permission_params v rest = do
  id ←
      (if truthy v.active_permission_profile
        then profile_id v.active_permission_profile
        else ok none)
  if truthy_id id
      then ok (member "permissions" (elim id [ none ↦ null | some i ↦ i ]) rest)
      else if is_read_only v.sandbox
      then ok (member "sandbox" (str "read-only") rest)
      else err value_error

abbrev roots_params : Json → Members
roots_params null = end
roots_params v = member "runtimeWorkspaceRoots" v end

-- `thread_params('', recovery_pointer=…)`
unfoldable pub thread_params : Platform → Settings → Option String → Result Exc Members
unfolding permission_params
thread_params p v pointer = do
  permissions ← permission_params v (roots_params v.runtime_workspace_roots)
  raise_if (elim pointer [ none ↦ false | some path ↦ not (p.is_absolute path) ]) value_error
  ok (
      member "cwd" (str v.cwd) (
        member "model" v.model (
          member "modelProvider" v.model_provider (
            member "approvalPolicy" v.approval_policy (
              member "approvalsReviewer" v.approvals_reviewer
                (member "serviceTier" v.service_tier permissions))))))

abbrev effort_params : Json → Members → Members
effort_params null rest = rest
effort_params v rest = member "effort" v rest

abbrev sandbox_params : Settings → Result Exc Members
sandbox_params v =
    if truthy v.active_permission_profile
    then (elim v.active_permission_profile [
      | obj m ↦ (item "id" m >>= λ i. ok (member "permissions" i end))
      | _ ↦ err type_error
    ])
    else ok (member "sandboxPolicy" v.sandbox end)

unfoldable pub turn_params : Settings → Json → String → String → Result Exc Members
turn_params v thread_id prompt client_message_id = do
  permissions ← sandbox_params v
  ok (
      member "threadId" thread_id (
        member "input"
          (arr (cons (obj (member "type" (str "text") (member "text" (str prompt) end))) nil))
          (member "clientUserMessageId" (str client_message_id) (
            member "cwd" (str v.cwd) (
              member "model" v.model (
                member "approvalPolicy" v.approval_policy (
                  member "approvalsReviewer" v.approvals_reviewer (
                    member "serviceTier" v.service_tier
                      (effort_params v.reasoning_effort permissions)))))))))

abbrev developer_changed : Option String → Option String → Bool
developer_changed none observed = false
developer_changed (some a) none = true
developer_changed (some a) (some b) = not (str_eq a b)

unfoldable pub verify_new_thread : Platform → Settings → Members → Result Exc (Unit {0})
verify_new_thread p v response = do
  o ← from_start p response
  raise_if
      (not (
        str_eq v.cwd o.cwd
        && same v.model o.model
        && same v.model_provider o.model_provider
        && same v.approval_policy o.approval_policy
        && same v.approvals_reviewer o.approvals_reviewer
        && same v.sandbox o.sandbox
        && same v.service_tier o.service_tier
        && same v.runtime_workspace_roots o.runtime_workspace_roots
        && same v.active_permission_profile o.active_permission_profile))
      value_error
  raise_if (developer_changed v.developer_config_sha256 o.developer_config_sha256) value_error
