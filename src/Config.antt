-- ===== src/Config.antt =====
-- The guard's own configuration: its sections, their fields with the defaults, and the validation of
-- a whole configuration (crg/config.py). A configuration is the fields of its sections in order.
pub mod Resolve
mod Updates
pub mod Precedence
use context_rollover_guard.Session.{Real, fraction, not_finite}
use context_rollover_guard.Errors.{Exc, value_error}
use context_rollover_guard.Prelude.{
  ℕ, zero, suc, ◌+◌, ◌-◌, ◌*◌, ◌/◌, ◌%◌, ◌≤◌, ◌<◌, min, max, String, str_append, ◌≡◌, refl, sym, ap,
  ◌∙◌, subst, ◌≢◌, ◌↔◌, ◌⊎◌, inl, inr, Bool, true, false, ◌&&◌, ◌||◌, not, Option, none, some, List,
  [], ◌∷◌, ◌++◌, map, arith, str_eq, eq_iff, ltb, leb, ◌==◌, if◌then◌else◌, is_some, length,
  get_elem?, take, drop, any, all, All, Result, ok, err, ◌>>=◌, ◌>>◌, raise_if, or_raise, >>=-eq-ok,
  Result-cases, Bool-cases, Option-cases,
}
use context_rollover_guard.Prelude.Int.{
  ℤ, pos, negsuc, sub_ℕ, ltb_ℤ, ◌+ℤ◌, ◌-ℤ◌, ◌≤ℤ◌, pos_part, neg_part,
}

-- A value of a configuration file or of the command line; a float is a fraction, or not finite.
pub data Value : Type 0 where
  text : String → Value
  flag : Bool → Value
  whole : ℤ → Value
  float : Real → Value
  other : Value

pub data Section : Type 0 where
  context_rollover predictor rollover emergency continuity : Section

abbrev pub Fields : Type 0
Fields = List (String × Value)

abbrev hundredths : ℕ → Value
hundredths n = float (fraction (pos n) 99)

-- The dataclasses, with their defaults.
unfoldable pub defaults : Section → Fields
defaults context_rollover =
    ("enabled", flag false)
    ∷ ("mode", text "auto")
    ∷ ("codex_binary", text "")
    ∷ ("archive_root", text ".codex/context-archive")
    ∷ ("state_root", text "")
    ∷ ("evidence_root", text "")
    ∷ ("schema_cache", text "")
    ∷ ("capability_receipt", text "")
    ∷ ("hook_receipts", text "")
    ∷ ("evidence_exports", text "")
    ∷ []
defaults predictor =
    ("window_size", whole (pos 8))
    ∷ ("min_growth_tokens", whole (pos 8000))
    ∷ ("safety_buffer_tokens", whole (pos 8000))
    ∷ ("safety_buffer_percent", hundredths 3)
    ∷ ("warn_probability", hundredths 75)
    ∷ ("hard_arm_remaining_tokens", whole (pos 12000))
    ∷ ("derived_limit_percent", hundredths 90)
    ∷ ("conservative_limit_percent", hundredths 80)
    ∷ []
defaults rollover =
    ("archive_old_thread", flag true)
    ∷ ("preserve_model", flag true)
    ∷ ("preserve_cwd", flag true)
    ∷ ("preserve_permissions", flag true)
    ∷ ("forward_original_prompt", flag true)
    ∷ []
defaults emergency =
    ("block_auto_compact", flag false) ∷ ("force_rollover_on_next_prompt", flag false) ∷ []
defaults continuity = ("policy", text "native_cooperative") ∷ []

abbrev pub sections : List Section
sections = context_rollover ∷ predictor ∷ rollover ∷ emergency ∷ continuity ∷ []

abbrev pub Config : Type 0
Config = Section → Fields

-- d.get(key), and d[key] = value
unfoldable pub field {ℓ} : {A : Type ℓ} → String → List (String × A) → Option A
field k [] = none
field k ((j, v) ∷ rest) = let found = field k rest in if str_eq j k then some v else found

unfoldable pub set_field {ℓ} : {A : Type ℓ} → String → A → List (String × A) → List (String × A)
set_field k v [] = (k, v) ∷ []
set_field k v ((j, w) ∷ rest) =
    let later = set_field k v rest in if str_eq j k then (j, v) ∷ rest else (j, w) ∷ later

abbrev is_text : List String → Option Value → Bool
is_text names (some (text s)) = any (str_eq s) names
is_text names _ = false

abbrev pub is_on : Option Value → Bool
is_on (some (flag b)) = b
is_on _ = false

abbrev is_flag : Option Value → Bool
is_flag (some (flag b)) = true
is_flag _ = false

abbrev is_filled : Option Value → Bool
is_filled (some (text s)) = not (str_eq s "")
is_filled _ = false

-- The numbers n / (d + 1).
abbrev pub quotient : Value → Option (ℤ × ℕ)
quotient (whole n) = some (n, 0)
quotient (float (fraction n d)) = some (n, d)
quotient _ = none

unfoldable pub at_most : ℤ × ℕ → ℤ × ℕ → Bool
at_most (a, d) (b, e) =
    leb (pos_part a * suc e + neg_part b * suc d) (pos_part b * suc d + neg_part a * suc e)

abbrev pub at_most_value : Option (ℤ × ℕ) → Option (ℤ × ℕ) → Bool
at_most_value (some a) (some b) = at_most a b
at_most_value _ _ = false

abbrev exactly : ℕ → Option (ℤ × ℕ)
exactly n = some (pos n, 0)

abbrev pub between : ℕ → ℕ → Value → Bool
between low high v =
    at_most_value (exactly low) (quotient v) && at_most_value (quotient v) (exactly high)

abbrev pub token_fields : List String
token_fields = "min_growth_tokens" ∷ "safety_buffer_tokens" ∷ "hard_arm_remaining_tokens" ∷ []

abbrev pub fraction_fields : List String
fraction_fields =
    "safety_buffer_percent" ∷ "warn_probability" ∷ "derived_limit_percent"
    ∷ "conservative_limit_percent" ∷ []

-- One round of the loop over the fields of the predictor.
unfoldable pub predictor_field : String × Value → Bool
predictor_field (k, v) =
    (not (str_eq k "window_size") || between 1 10000 v)
    && (not (any (str_eq k) token_fields) || at_most_value (exactly 0) (quotient v))
    && (not (any (str_eq k) fraction_fields) || between 0 1 v)

abbrev pub number_in : String → Fields → Option (ℤ × ℕ)
number_in k fs = elim (field k fs) [ none ↦ none | some v ↦ quotient v ]

-- `0 < conservative_limit_percent <= derived_limit_percent <= 1`
unfoldable pub limits_in_order : Fields → Bool
limits_in_order fs =
    let low = number_in "conservative_limit_percent" fs in
    let high = number_in "derived_limit_percent" fs in
    not (at_most_value low (exactly 0)) && at_most_value low high && at_most_value high (exactly 1)

-- validate_execution_config
unfoldable pub validate_execution_config : Config → Result Exc (Unit {0})
validate_execution_config c = do
  raise_if
      (not (
        is_on (field "preserve_model" (c rollover))
        && is_on (field "preserve_cwd" (c rollover))
        && is_on (field "preserve_permissions" (c rollover))
        && is_on (field "forward_original_prompt" (c rollover))))
      value_error
  raise_if (not (is_flag (field "archive_old_thread" (c rollover)))) value_error

abbrev pub policies : List String
policies = "observe" ∷ "native_cooperative" ∷ "manual_recovery" ∷ "guarded_owned_rollover" ∷ []

abbrev pub modes : List String
modes = "auto" ∷ "MODE_A" ∷ "MODE_B" ∷ "MODE_C" ∷ []

-- The tests of `resolve_config` on the configuration that it built.
unfoldable pub validate_config : Config → Result Exc (Unit {0})
validate_config c = do
  raise_if (not (is_text policies (field "policy" (c continuity)))) value_error
  raise_if (not (is_text modes (field "mode" (c context_rollover)))) value_error
  raise_if
      (not (is_filled (field "archive_root" (c context_rollover)))
        || not (is_filled (field "state_root" (c context_rollover))))
      value_error
  raise_if (not (all predictor_field (c predictor))) value_error
  raise_if (not (limits_in_order (c predictor))) value_error
  validate_execution_config c

-- migration_diagnostics: which of its four messages are given
pub data Diagnostic : Type 0 where
  policy_defaults warn_probability_ignored emergency_inactive guard_unverified : Diagnostic

abbrev pub when_true : {A : Type 0} → Bool → A → List A
when_true true a = a ∷ []
when_true false a = []

abbrev label_is : String → Option String → Bool
label_is s none = false
label_is s (some t) = str_eq t s

unfoldable pub migration_diagnostics : Config → (Section → List (String × String)) → List Diagnostic
migration_diagnostics c sources =
    let guarded = is_text ("guarded_owned_rollover" ∷ []) (field "policy" (c continuity)) in
    when_true (label_is "default" (field "policy" (sources continuity))) policy_defaults
    ++ when_true (not (label_is "default" (field "warn_probability" (sources predictor))))
        warn_probability_ignored
    ++ when_true
        (not guarded
          && (is_on (field "block_auto_compact" (c emergency))
              || is_on (field "force_rollover_on_next_prompt" (c emergency))))
        emergency_inactive
    ++ when_true guarded guard_unverified
