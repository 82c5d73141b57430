-- ===== src/Config/Resolve.antt =====
-- `resolve_config` (crg/config.py). Reading and parsing a file are outside: a source is what they
-- gave.
use context_rollover_guard.Session.{fraction}
use context_rollover_guard.Errors.{Exc, value_error}
use context_rollover_guard.Config.{
  Value, text, flag, whole, float, Section, context_rollover, predictor, rollover, emergency,
  continuity, Fields, defaults, sections, field, set_field, Config, validate_config,
}
use context_rollover_guard.Prelude.{
  ℕ, String, Bool, true, false, not, Option, none, some, List, [], ◌∷◌, str_eq, ◌==◌, if◌then◌else◌,
  is_some, all, Result, ok, err, ◌>>=◌, ◌>>◌, raise_if,
}

-- A document: for each section its table, or `none` where the value is no table.
abbrev pub Document : Type 0
Document = List (String × Option Fields)

pub data Source : Type 0 where
  missing unreadable : Source
  parsed : Document → Source

-- The merged values of every section, and where each field's value is from.
pub record Merged : Type 0 where
  pub values : Section → Fields
  pub labels : Section → List (String × String)

abbrev pub section_name : Section → String
section_name context_rollover = "context_rollover"
section_name predictor = "predictor"
section_name rollover = "rollover"
section_name emergency = "emergency"
section_name continuity = "continuity"

unfoldable pub named_section : String → List Section → Option Section
named_section name [] = none
named_section name (s ∷ rest) =
    let found = named_section name rest in if str_eq (section_name s) name then some s else found

abbrev section_code : Section → ℕ
section_code context_rollover = 0
section_code predictor = 1
section_code rollover = 2
section_code emergency = 3
section_code continuity = 4

unfoldable pub same_section : Section → Section → Bool
same_section s s' = section_code s == section_code s'

abbrev pub known_fields : Section → Fields → Bool
known_fields s values = all (λ e. is_some (field e.0 (defaults s))) values

-- `merged[name].update(values)`, and the labels
unfoldable pub update_fields :
    {A B : Type 0} → (A → B) → List (String × A) → List (String × B) → List (String × B)
update_fields f [] old = old
update_fields f ((k, v) ∷ rest) old = update_fields f rest (set_field k (f v) old)

unfoldable pub merge_section : String → Section → Fields → Merged → Merged
merge_section label s values m = record {
  values = λ x. if same_section x s then update_fields (λ v. v) values (m.values x) else m.values x;
  labels =
      λ x. if same_section x s then update_fields (λ v. label) values (m.labels x) else m.labels x;
}

abbrev pub checked_section : Option Section → Option Fields → Result Exc (Section × Fields)
checked_section none values = err value_error
checked_section (some s) none = err value_error
checked_section (some s) (some values) =
    if known_fields s values then ok (s, values) else err value_error

-- The loop over the sections of one source, after the test that all are known.
unfoldable pub merge_sections : String → Document → Merged → Result Exc Merged
merge_sections label [] m = ok m
merge_sections label ((name, values) ∷ rest) m = do
  found ← checked_section (named_section name sections) values
  merge_sections label rest (merge_section label found.0 found.1 m)

unfoldable pub merge : String → Document → Merged → Result Exc Merged
merge label d m = do
  raise_if (not (all (λ e. is_some (named_section e.0 sections)) d)) value_error
  merge_sections label d m

-- `type(value) is expected`; an int serves for a float, which must be finite
unfoldable pub has_type : Value → Value → Bool
has_type (text d) (text v) = true
has_type (flag d) (flag v) = true
has_type (whole d) (whole v) = true
has_type (float d) (whole v) = true
has_type (float d) (float (fraction n e)) = true
has_type _ _ = false

abbrev pub has_type_of : Option Value → Value → Bool
has_type_of none v = false
has_type_of (some d) v = has_type d v

unfoldable pub well_typed : Section → Fields → Bool
well_typed s values = all (λ e. has_type_of (field e.0 (defaults s)) e.1) values

-- `cls(**merged[name])`
unfoldable pub object_of : Fields → Fields → Fields
object_of [] values = []
object_of ((k, d) ∷ rest) values =
    (k, elim (field k values) [ none ↦ d | some v ↦ v ]) ∷ object_of rest values

abbrev pub first_labels : Fields → List (String × String)
first_labels [] = []
first_labels ((k, v) ∷ rest) = (k, "default") ∷ first_labels rest

-- The state root from the environment is not marked as configured.
unfoldable pub initial : String → Merged
initial state_root = record {
  values =
      λ s. if same_section s context_rollover then ("state_root", text state_root) ∷ [] else [];
  labels = λ s. first_labels (defaults s);
}

-- A file is merged where it exists.
abbrev pub document_of : Source → Result Exc Document
document_of missing = ok []
document_of unreadable = err value_error
document_of (parsed d) = ok d

unfoldable pub config_of : Merged → Config
config_of m s = object_of (defaults s) (m.values s)

unfoldable pub resolve_config :
    String → Source → Source → Document → Result Exc (Config × (Section → List (String × String)))
resolve_config state_root user_file repo_file overrides = do
  user ← document_of user_file
  repo ← document_of repo_file
  m1 ← merge "user" user (initial state_root)
  m2 ← merge "repo" repo m1
  m3 ← merge "cli" overrides m2
  raise_if (not (all (λ s. well_typed s (m3.values s)) sections)) value_error
  validate_config (config_of m3)
  ok (config_of m3, m3.labels)
