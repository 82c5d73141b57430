-- ===== src/Tests/Config.antt =====
-- A configuration whose policy is chosen by the repository's file and not by the user's.
use context_rollover_guard.Config.Precedence.{resolve_config-Chosen, Chosen}
use context_rollover_guard.Config.{
  set_field, validate_config, predictor_field, at_most, limits_in_order, validate_execution_config,
  text, whole, continuity, Section, Config, field, defaults,
}
use context_rollover_guard.Errors.{Exc}
use context_rollover_guard.Config.Resolve.{
  merge, named_section, merge_sections, well_typed, merge_section, same_section, initial, has_type,
  update_fields, config_of, object_of, parsed, resolve_config, Document,
}
use context_rollover_guard.Prelude.{String, ◌≡◌, refl, some, List, [], ◌∷◌, Result, ok, err}
use context_rollover_guard.Prelude.Int.{pos}

abbrev user_document : Document
user_document =
    ("continuity", some (("policy", text "observe") ∷ []))
    ∷ ("predictor", some (("window_size", whole (pos 5)) ∷ []))
    ∷ []

abbrev repo_document : Document
repo_document = ("continuity", some (("policy", text "manual_recovery") ∷ [])) ∷ []

abbrev resolved : Result Exc (Config × (Section → List (String × String)))
resolved = resolve_config "/home" (parsed user_document) (parsed repo_document) []

abbrev chosen : Config
chosen s = elim resolved [ ok (c, labels) ↦ c s | err e ↦ [] ]

abbrev chosen_labels : Section → List (String × String)
chosen_labels s = elim resolved [ ok (c, labels) ↦ labels s | err e ↦ [] ]

configuration_resolves : resolved ≡ ok (chosen, chosen_labels)
unfolding resolve_config merge named_section merge_sections field defaults well_typed merge_section
    same_section initial has_type update_fields set_field validate_config config_of object_of
    predictor_field at_most limits_in_order validate_execution_config
configuration_resolves = refl

policy_is_manual : field "policy" (chosen continuity) ≡ some (text "manual_recovery")
unfolding resolve_config field merge named_section merge_sections defaults well_typed merge_section
    same_section initial has_type update_fields set_field validate_config config_of object_of
    predictor_field at_most limits_in_order validate_execution_config
policy_is_manual = refl

resolve_config-Chosen_example :
    Chosen "/home" user_document repo_document [] chosen chosen_labels continuity "policy"
      (text "native_cooperative")
unfolding defaults field
resolve_config-Chosen_example =
    resolve_config-Chosen "/home" (parsed user_document) (parsed repo_document) user_document
      repo_document [] chosen chosen_labels configuration_resolves refl refl continuity "policy"
      (text "native_cooperative") refl
