-- ===== src/Tests/Protocol.antt =====
-- A request to start a turn, against a small installed schema.
use context_rollover_guard.Errors.{value_error}
use context_rollover_guard.Prelude.{◌≡◌, refl, true, ok, err}
use context_rollover_guard.Json.{
  Members, null, bool, int, str, arr, obj, nil, cons, end, member, get, same,
}
use context_rollover_guard.Prelude.Int.{pos}
use context_rollover_guard.Protocol.Schema.{
  definition_of, accepted, check_fields, check_length, check_maximum, check_minimum, check_pattern,
  count_items, each, known_keys, member_of, top_schema, validate_value, check_schema, check_ref,
  check_union, check_type, any_kind, is_kind, is_named, check_enum, check_value, check_object,
  has_keys, has_key, each_property, property_schema, Texts, validate,
}
use context_rollover_guard.Protocol.Requests.{Allowed, validate-Allowed}

-- Texts without patterns; a local reference is to the definition of its own name.
abbrev plain : Texts
plain = record {
  length_of = λ s. 4;
  is_local = λ s. true;
  last_part = λ s. s;
  matches = λ p s. true;
}

abbrev input_schema : Members
input_schema = member "type" (str "string") (member "minLength" (int (pos 1)) end)

abbrev turn_schema : Members
turn_schema = member "type" (str "object") (
    member "required" (arr (cons (str "threadId") nil)) (
      member "properties"
        (obj (
          member "threadId" (obj (member "$ref" (str "Input") end))
            (member "sandboxPolicy" (bool true) end)))
        end))

abbrev document : Members
document = member "definitions" (obj (member "Input" (obj input_schema) end)) end

abbrev methods : Members
methods = member "turn/start" (obj turn_schema) end

abbrev params : Members
params = member "threadId" (str "t-01") (member "sandboxPolicy" null end)

accepts_turn : validate plain document methods "turn/start" params ≡ ok tt
unfolding validate get validate_value check_schema check_ref check_union check_type any_kind is_kind
    is_named check_enum check_value check_object has_keys has_key each_property property_schema
    definition_of same accepted check_fields check_length check_maximum check_minimum check_pattern
    count_items each known_keys member_of top_schema
accepts_turn = refl

refuses_unknown_field :
    validate plain document methods "turn/start" (member "input" null params) ≡ err value_error
unfolding validate get validate_value check_schema check_ref check_union check_type any_kind is_kind
    is_named check_enum check_value check_object has_keys has_key each_property property_schema
    definition_of same accepted check_fields check_length check_maximum check_minimum check_pattern
    count_items each known_keys member_of top_schema
refuses_unknown_field = refl

refuses_missing : validate plain document methods "turn/start" end ≡ err value_error
unfolding validate get validate_value check_schema check_ref check_union check_type any_kind is_kind
    is_named check_enum check_value check_object has_keys has_key each_property property_schema
    definition_of same accepted check_fields check_length check_maximum check_minimum check_pattern
    count_items each known_keys member_of top_schema
refuses_missing = refl

validate-Allowed_example : Allowed plain document methods "turn/start" params
validate-Allowed_example = validate-Allowed plain document methods "turn/start" params accepts_turn
