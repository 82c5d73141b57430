-- ===== src/Protocol/Schema.antt =====
-- The validation of requests against the installed JSON schema (crg/appserver.py, `ProtocolSchema`).
-- A schema of a shape that the code does not expect raises another exception than ValueError, here
-- `type_error`. The nesting limit is the fuel of the recursion.
use context_rollover_guard.Prelude.{
  ℕ, zero, suc, ◌+◌, ◌*◌, String, Bool, true, false, ◌&&◌, ◌||◌, not, Option, none, some, List, [],
  ◌∷◌, str_eq, ltb, ◌==◌, if◌then◌else◌, is_some, any, Result, ok, err, ◌>>=◌, ◌>>◌, raise_if,
  or_raise,
}
use context_rollover_guard.Json.{
  Json, Items, Members, null, bool, int, real, str, arr, obj, nil, cons, end, member, get, same,
}
use context_rollover_guard.Prelude.Int.{ℤ, pos, pos_part, neg_part}
use context_rollover_guard.Errors.{Exc, value_error, key_error, type_error}
use context_rollover_guard.Settings.{truthy}

-- Python's operations on texts that the checks use.
pub record Texts : Type 0 where
  -- len(text), ref.startswith('#/definitions/'), ref.split('/')[-1]
  pub length_of : String → ℕ
  pub is_local : String → Bool
  pub last_part : String → String
  -- re.search(pattern, text) is not None
  pub matches : String → String → Bool

-- `key in schema`, and `schema[key]` where it is
abbrev pub has : String → Members → Bool
has k m = is_some (get k m)

-- The iteration over a list; another value does not iterate as the code expects.
abbrev pub items_of : Json → Result Exc Items
items_of (arr xs) = ok xs
items_of _ = err type_error

abbrev pub dict_of : Json → Result Exc Members
dict_of (obj m) = ok m
dict_of _ = err type_error

abbrev pub text_of : Json → Result Exc String
text_of (str s) = ok s
text_of _ = err type_error

-- `all`, in order; the first failure ends it.
unfoldable pub each : (Json → Result Exc (Unit {0})) → Items → Result Exc (Unit {0})
each check nil = ok tt
each check (cons x xs) = check x >> each check xs

abbrev pub is_value_error : Exc → Bool
is_value_error value_error = true
is_value_error _ = false

-- How many children accept; only a ValueError is a refusal.
unfoldable pub accepted : (Json → Result Exc (Unit {0})) → Items → Result Exc ℕ
accepted check nil = ok 0
accepted check (cons x xs) = elim (check x) [
  | ok done ↦ do rest ← accepted check xs; ok (suc rest)
  | err e ↦ if is_value_error e then accepted check xs else err e
]

unfoldable pub count_items : Items → ℕ
count_items nil = 0
count_items (cons x xs) = suc (count_items xs)

unfoldable pub member_of : Json → Items → Bool
member_of v nil = false
member_of v (cons x xs) = same v x || member_of v xs

abbrev is_number : Json → Bool
is_number (int n) = true
is_number (real n d) = true
is_number _ = false

-- The table `valid`, at the name of one kind.
unfoldable pub is_named : Json → String → Bool
is_named value kind =
    (str_eq kind "null" && (elim value [ null ↦ true | _ ↦ false ]))
    || (str_eq kind "boolean" && (elim value [ bool b ↦ true | _ ↦ false ]))
    || (str_eq kind "integer" && (elim value [ int n ↦ true | _ ↦ false ]))
    || (str_eq kind "number" && is_number value)
    || (str_eq kind "string" && (elim value [ str s ↦ true | _ ↦ false ]))
    || (str_eq kind "array" && (elim value [ arr xs ↦ true | _ ↦ false ]))
    || (str_eq kind "object" && (elim value [ obj m ↦ true | _ ↦ false ]))

-- `valid.get(kind, False)`; lists and dictionaries are no keys.
unfoldable pub is_kind : Json → Json → Result Exc Bool
is_kind value (str kind) = ok (is_named value kind)
is_kind value (arr xs) = err type_error
is_kind value (obj m) = err type_error
is_kind value _ = ok false

unfoldable pub any_kind : Json → Items → Result Exc Bool
any_kind value nil = ok false
any_kind value (cons kind rest) = do
  hit ← is_kind value kind
  elim hit [ true ↦ ok true | false ↦ any_kind value rest ]

abbrev pub kinds_of : Json → Items
kinds_of (arr xs) = xs
kinds_of kind = cons kind nil

unfoldable pub check_type : Json → Option Json → Result Exc (Unit {0})
check_type value none = ok tt
check_type value (some types) =
    if truthy types
    then (do hit ← any_kind value (kinds_of types); raise_if (not hit) value_error)
    else ok tt

unfoldable pub check_enum : Json → Option Json → Result Exc (Unit {0})
check_enum value none = ok tt
check_enum value (some enum) = do
  allowed ← items_of enum
  raise_if (not (member_of value allowed)) value_error

-- The children of a union keyword, and how many of them must accept.
unfoldable pub check_union :
    (Json → Result Exc (Unit {0})) → String → Option Json → Result Exc (Unit {0})
check_union check keyword none = ok tt
check_union check keyword (some children) = do
  xs ← items_of children
  count ← accepted check xs
  raise_if
      (ltb count (if str_eq keyword "allOf" then count_items xs else 1)
        || (str_eq keyword "oneOf" && not (count == 1)))
      value_error

-- Whether a dictionary has a key; lists and dictionaries are no keys.
unfoldable pub has_key : Members → Json → Result Exc Bool
has_key m (str name) = ok (has name m)
has_key m (arr xs) = err type_error
has_key m (obj n) = err type_error
has_key m _ = ok false

-- set(required) <= set(value)
unfoldable pub has_keys : Members → Items → Result Exc Bool
has_keys m nil = ok true
has_keys m (cons k rest) = do found ← has_key m k; others ← has_keys m rest; ok (found && others)

abbrev pub or_else : Option Json → Json → Json
or_else none v = v
or_else (some w) v = w

-- The schema of one property.
unfoldable pub property_schema : Members → Json → String → Json
property_schema props additional key = or_else (get key props) additional

unfoldable pub each_property :
    (Json → Json → Result Exc (Unit {0})) → Members → Json → Members → Result Exc (Unit {0})
each_property check props additional end = ok tt
each_property check props additional (member key item rest) =
    check item (property_schema props additional key) >> each_property check props additional rest

unfoldable pub check_object :
    (Json → Json → Result Exc (Unit {0})) → Members → Members → Result Exc (Unit {0})
check_object check schema m = do
  required ← items_of (or_else (get "required" schema) (arr nil))
  present ← has_keys m required
  raise_if (not present) value_error
  props ← dict_of (or_else (get "properties" schema) (obj end))
  each_property check props (or_else (get "additionalProperties" schema) (bool true)) m

-- A comparison of numbers: `a < b` of fractions.
abbrev pub less : ℤ × ℕ → ℤ × ℕ → Bool
less (a, d) (b, e) =
    ltb (pos_part a * suc e + neg_part b * suc d) (pos_part b * suc d + neg_part a * suc e)

abbrev pub fraction_of : Json → Result Exc (ℤ × ℕ)
fraction_of (int n) = ok (n, 0)
fraction_of (real n d) = ok (n, d)
fraction_of (bool true) = ok (pos 1, 0)
fraction_of (bool false) = ok (pos 0, 0)
fraction_of _ = err type_error

-- `length < schema.get(key, 0)`
unfoldable pub check_length : ℕ → Option Json → Result Exc (Unit {0})
check_length n none = ok tt
check_length n (some bound) = do
  least ← fraction_of bound
  raise_if (less (pos n, 0) least) value_error

unfoldable pub check_pattern : Texts → String → Option Json → Result Exc (Unit {0})
check_pattern t s none = ok tt
check_pattern t s (some pattern) = do
  p ← text_of pattern
  raise_if (not (t.matches p s)) value_error

unfoldable pub check_minimum : ℤ × ℕ → Option Json → Result Exc (Unit {0})
check_minimum n none = ok tt
check_minimum n (some bound) = do least ← fraction_of bound; raise_if (less n least) value_error

unfoldable pub check_maximum : ℤ × ℕ → Option Json → Result Exc (Unit {0})
check_maximum n none = ok tt
check_maximum n (some bound) = do most ← fraction_of bound; raise_if (less most n) value_error

abbrev check_number : Members → ℤ × ℕ → Result Exc (Unit {0})
check_number schema n =
    check_minimum n (get "minimum" schema) >> check_maximum n (get "maximum" schema)

-- The checks that depend on the value's own type.
unfoldable pub check_value :
    Texts → (Json → Json → Result Exc (Unit {0})) → Members → Json → Result Exc (Unit {0})
check_value t check schema (obj m) = check_object check schema m
check_value t check schema (arr xs) =
    check_length (count_items xs) (get "minItems" schema)
    >> each (λ x. check x (or_else (get "items" schema) (bool true))) xs
check_value t check schema (str s) =
    check_length (t.length_of s) (get "minLength" schema)
    >> check_pattern t s (get "pattern" schema)
check_value t check schema (int n) = check_number schema (n, 0)
check_value t check schema (real n d) = check_number schema (n, d)
check_value t check schema _ = ok tt

-- self.document['definitions'][ref.split('/')[-1]]
unfoldable pub definition_of : Texts → Members → String → Result Exc Json
definition_of t document ref = do
  definitions ← or_raise (get "definitions" document) key_error
  names ← dict_of definitions
  or_raise (get (t.last_part ref) names) key_error

unfoldable pub check_ref :
    Texts → Members → (Json → Result Exc (Unit {0})) → Option Json → Result Exc (Unit {0})
check_ref t document check none = ok tt
check_ref t document check (some ref) = do
  name ← text_of ref
  raise_if (not (t.is_local name)) value_error
  definition ← definition_of t document name
  check definition

-- `_validate` on a schema that is a dictionary, with its recursive calls as `check`.
unfoldable pub check_schema :
    Texts → Members → (Json → Json → Result Exc (Unit {0})) → Json → Members → Result Exc (Unit {0})
check_schema t document check value schema = do
  check_ref t document (check value) (get "$ref" schema)
  check_union (check value) "allOf" (get "allOf" schema)
  check_union (check value) "anyOf" (get "anyOf" schema)
  check_union (check value) "oneOf" (get "oneOf" schema)
  check_type value (get "type" schema)
  check_enum value (get "enum" schema)
  check_value t check schema value

abbrev checked_by :
    Texts → Members → (Json → Json → Result Exc (Unit {0})) → Json → Json → Result Exc (Unit {0})
checked_by t document check value (bool true) = ok tt
checked_by t document check value (bool false) = err value_error
checked_by t document check value (obj schema) = check_schema t document check value schema
checked_by t document check value _ = err type_error

-- `_validate(value, schema, depth)`, at the fuel 101 - depth
unfoldable pub validate_value : Texts → Members → ℕ → Json → Json → Result Exc (Unit {0})
validate_value t document zero value schema = err value_error
validate_value t document (suc fuel) value schema =
    checked_by t document (validate_value t document fuel) value schema

-- `depth > 100` is refused
abbrev pub nesting : ℕ
nesting = 101

abbrev pub forbidden : List String
forbidden = "thread/fork" ∷ "thread/delete" ∷ []

unfoldable pub known_keys : Members → Members → Bool
known_keys end props = true
known_keys (member k v m) props = has k props && known_keys m props

abbrev pub present : String → Members → Bool
present k m = elim (get k m) [ none ↦ false | some v ↦ not (same v null) ]

-- The schema that names the top-level fields.
unfoldable pub top_schema : Texts → Members → Members → Result Exc Members
top_schema t document schema = elim (get "$ref" schema) [
  | none ↦ ok schema
  | some ref ↦ do name ← text_of ref; definition ← definition_of t document name; dict_of definition
]

abbrev pub check_properties : Members → Option Json → Result Exc (Unit {0})
check_properties params none = ok tt
check_properties params (some props) = do
  names ← dict_of props
  raise_if (not (known_keys params names)) value_error

unfoldable pub check_fields : Members → Members → Result Exc (Unit {0})
check_fields params schema = check_properties params (get "properties" schema)

abbrev pub excludes : String → String → String → String → Members → Bool
excludes wanted method one other params =
    str_eq method wanted && (present one params && present other params)

-- ProtocolSchema.validate; `methods` has the schema of each method's parameters
unfoldable pub validate : Texts → Members → Members → String → Members → Result Exc (Unit {0})
validate t document methods method params = do
  raise_if (any (str_eq method) forbidden) value_error
  schema ← or_raise (get method methods) value_error
  validate_value t document nesting (obj params) schema
  m ← dict_of schema
  top ← top_schema t document m
  check_fields params top
  raise_if (excludes "thread/start" method "permissions" "sandbox" params) value_error
  raise_if (excludes "turn/start" method "permissions" "sandboxPolicy" params) value_error
