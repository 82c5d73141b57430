-- ===== src/Settings/Requested.antt =====
-- `ExecutionSettings.verify_requested` (crg/appserver.py): a runtime's response may not widen what
-- was requested at the start of a thread.
use context_rollover_guard.Prelude.{
  ◌≢◌, ◌≡◌, refl, String, Bool, true, false, ◌||◌, not, Option, none, some, List, [], ◌∷◌, All,
  Result, ok, ◌>>=◌, ◌>>◌, raise_if, if◌then◌else◌, arith, Option-cases, Bool-cases, inl, inr,
  Result-cases,
}
use context_rollover_guard.Json.{Json, Members, str, null, bool, int, real, arr, obj, get, same}
use context_rollover_guard.Errors.{Exc, value_error}
use context_rollover_guard.Settings.{Settings, get_or_null, truthy, profile_id, is_read_only}

-- The keys that the first loop compares, with the observed values.
unfoldable pub compared : Settings → List (String × Json)
compared v =
    ("cwd", str v.cwd)
    ∷ ("model", v.model)
    ∷ ("modelProvider", v.model_provider)
    ∷ ("approvalPolicy", v.approval_policy)
    ∷ ("approvalsReviewer", v.approvals_reviewer)
    ∷ ("serviceTier", v.service_tier)
    ∷ []

abbrev differs : Option Json → Json → Bool
differs none observed = false
differs (some requested) observed = not (same requested observed)

unfoldable pub check_keys : Members → List (String × Json) → Result Exc (Unit {0})
check_keys params [] = ok tt
check_keys params ((k, observed) ∷ rest) =
    raise_if (differs (get k params) observed) value_error >> check_keys params rest

abbrev is_null : Json → Bool
is_null null = true
is_null _ = false

abbrev observed_profile : Settings → Result Exc (Option Json)
observed_profile v =
    if truthy v.active_permission_profile then profile_id v.active_permission_profile else ok none

abbrev lacks : Option Json → Json → Bool
lacks none requested = true
lacks (some id) requested = not (same id requested)

unfoldable pub check_permissions : Settings → Json → Result Exc (Unit {0})
check_permissions v requested =
    if is_null requested
    then ok tt
    else (observed_profile v >>= λ id. raise_if (lacks id requested) value_error)

unfoldable pub check_sandbox : Settings → Option Json → Result Exc (Unit {0})
check_sandbox v none = ok tt
check_sandbox v (some requested) =
    raise_if (not (same requested (str "read-only")) || not (is_read_only v.sandbox)) value_error

unfoldable pub verify_requested : Settings → Members → Result Exc (Unit {0})
verify_requested v params =
    check_keys params (compared v)
    >> (check_permissions v (get_or_null "permissions" params)
        >> check_sandbox v (get "sandbox" params))

-- What was asked for is what was observed.
pub record IsPreserved (v : Settings) (params : Members) : Type 0 where
  pub cwd : (w : Json) → get "cwd" params ≡ some w → same w (str v.cwd) ≡ true
  pub model : (w : Json) → get "model" params ≡ some w → same w v.model ≡ true
  pub model_provider :
      (w : Json) → get "modelProvider" params ≡ some w → same w v.model_provider ≡ true
  pub approval_policy :
      (w : Json) → get "approvalPolicy" params ≡ some w → same w v.approval_policy ≡ true
  pub approvals_reviewer :
      (w : Json) → get "approvalsReviewer" params ≡ some w → same w v.approvals_reviewer ≡ true
  pub service_tier : (w : Json) → get "serviceTier" params ≡ some w → same w v.service_tier ≡ true
  pub permissions :
      (w : Json)
      → get "permissions" params ≡ some w
      → w ≢ null
      → (id : Json) × (profile_id v.active_permission_profile ≡ ok (some id)) × (same id w ≡ true)
  pub sandbox :
      (w : Json)
      → get "sandbox" params ≡ some w
      → (same w (str "read-only") ≡ true) × (is_read_only v.sandbox ≡ true)

check_keys-All :
    (params : Members) (es : List (String × Json))
    → check_keys params es ≡ ok tt
    → All (λ (e : String × Json). (w : Json) → get e.0 params ≡ some w → same w e.1 ≡ true) es
unfolding check_keys
check_keys-All params [] h = tt
check_keys-All params ((k, observed) ∷ rest) h =
    elim (Bool-cases (differs (get k params) observed)) [
      | inl bad ↦ absurd (ground arith)
      | inr good ↦ ((λ w e. ground arith), check_keys-All params rest (ground arith))
    ]

is_null-eq : (w : Json) → is_null w ≡ true → w ≡ null
is_null-eq null h = refl
is_null-eq (bool b) h = cc
is_null-eq (int n) h = cc
is_null-eq (real n d) h = cc
is_null-eq (str s) h = cc
is_null-eq (arr xs) h = cc
is_null-eq (obj m) h = cc

check_permissions-profile :
    (v : Settings) (w : Json)
    → check_permissions v w ≡ ok tt
    → w ≢ null
    → (id : Json) × (profile_id v.active_permission_profile ≡ ok (some id)) × (same id w ≡ true)
unfolding check_permissions
check_permissions-profile v w h n = elim (Bool-cases (is_null w)) [
  | inl blank ↦ absurd (n (is_null-eq w blank))
  | inr there ↦ elim (Bool-cases (truthy v.active_permission_profile)) [
    | inr falsy ↦ absurd (ground arith)
    | inl holds ↦ elim (Result-cases (profile_id v.active_permission_profile)) [
      | inr (e, bad) ↦ absurd (ground arith)
      | inl (found, read) ↦ elim (Option-cases found) [
        | inl missing ↦ absurd (ground arith)
        | inr (id, is_id) ↦ (id, ground arith, ground arith)
      ]
    ]
  ]
]

check_sandbox-read_only :
    (v : Settings) (w : Json)
    → check_sandbox v (some w) ≡ ok tt
    → (same w (str "read-only") ≡ true) × (is_read_only v.sandbox ≡ true)
unfolding check_sandbox
check_sandbox-read_only v w h = ground arith

-- A response that passes has as it was requested each of the directory, the model, its provider, the
-- approval policy, the reviewer of approvals, the service tier and the permission profile that was
-- asked for; and a sandbox that was asked for is read-only on both sides.
pub verify_requested-IsPreserved :
    (v : Settings) (params : Members) → verify_requested v params ≡ ok tt → IsPreserved v params
unfolding verify_requested compared
verify_requested-IsPreserved v params h = elim (Result-cases (check_keys params (compared v))) [
  | inr (e, bad) ↦ absurd (ground arith)
  | inl (done, keys) ↦
      elim (Result-cases (check_permissions v (get_or_null "permissions" params))) [
        | inr (e, bad) ↦ absurd (ground arith)
        | inl (done', allowed) ↦
            let asked = check_keys-All params (compared v) keys in
            record {
              cwd = asked.0;
              model = asked.1.0;
              model_provider = asked.1.1.0;
              approval_policy = asked.1.1.1.0;
              approvals_reviewer = asked.1.1.1.1.0;
              service_tier = asked.1.1.1.1.1.0;
              permissions = λ w e n. check_permissions-profile v w (ground arith) n;
              sandbox = λ w e. check_sandbox-read_only v w (ground arith);
            }
      ]
]
