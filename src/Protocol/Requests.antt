-- ===== src/Protocol/Requests.antt =====
-- The requests that the client accepts for sending.
use context_rollover_guard.Errors.{value_error}
use context_rollover_guard.Prelude.{
  or_raise-eq-ok, >>-eq-ok, raise_if-eq-ok, String, ◌≡◌, ap, ◌∙◌, subst, true, false, Option, none,
  some, arith, str_eq, any, ok, or_raise, >>=-eq-ok,
}
use context_rollover_guard.Json.{
  Json, Members, null, bool, int, real, str, arr, obj, end, member, get,
}
use context_rollover_guard.Protocol.Schema.{
  Texts, dict_of, has, forbidden, known_keys, nesting, top_schema, check_fields, excludes, validate,
  validate_value, check_properties,
}
use context_rollover_guard.Protocol.Meets.{Meets}
use context_rollover_guard.Protocol.Grants.{validate_value-Meets}

-- Every field is declared in a schema.
unfoldable pub Declared : Members → Members → Type 0
Declared props end = Unit
Declared props (member k v m) = (has k props ≡ true) × Declared props m

-- The fields that a schema's top level declares, where it declares any.
abbrev pub DeclaredBy : Members → Option Json → Type 0
DeclaredBy params none = Unit
DeclaredBy params (some (obj props)) = Declared props params
DeclaredBy params (some _) = ⊥

-- A request that may be sent: its method is in the installed schema and is not one of the forbidden
-- ones, its parameters meet the method's schema and are all declared there, and it does not give
-- both of two permissions that exclude each other.
pub record Allowed (t : Texts) (document methods : Members) (method : String) (params : Members)
    : Type 0 where
  pub schema : Members
  pub top : Members
  pub not_fork : str_eq method "thread/fork" ≡ false
  pub not_delete : str_eq method "thread/delete" ≡ false
  pub installed : get method methods ≡ some (obj schema)
  pub meets : Meets t document nesting (obj params) (obj schema)
  pub is_top : top_schema t document schema ≡ ok top
  pub declared : DeclaredBy params (get "properties" top)
  pub thread_permissions : excludes "thread/start" method "permissions" "sandbox" params ≡ false
  pub turn_permissions : excludes "turn/start" method "permissions" "sandboxPolicy" params ≡ false

known_keys-Declared : (m props : Members) → known_keys m props ≡ true → Declared props m
unfolding known_keys Declared
known_keys-Declared end props h = tt
known_keys-Declared (member k v m) props h =
    (ground arith, known_keys-Declared m props (ground arith))

check_properties-DeclaredBy :
    (params : Members) (o : Option Json) → check_properties params o ≡ ok tt → DeclaredBy params o
check_properties-DeclaredBy params none h = tt
check_properties-DeclaredBy params (some (obj props)) h =
    known_keys-Declared params props (ground arith)
check_properties-DeclaredBy params (some _) h = cc

dict_of-obj : (s : Json) (m : Members) → dict_of s ≡ ok m → s ≡ obj m
dict_of-obj (obj n) m h = ap obj (ground arith)
dict_of-obj null m h = cc
dict_of-obj (bool b) m h = cc
dict_of-obj (int n) m h = cc
dict_of-obj (real n d) m h = cc
dict_of-obj (str s) m h = cc
dict_of-obj (arr xs) m h = cc

-- A request that `validate` accepts has a method of the installed schema that is neither thread/fork
-- nor thread/delete; its parameters meet every keyword of the schema of the method that the validator
-- knows, where a `oneOf` asks that one of its schemas is met and the validator refuses all the others
-- with a ValueError; they are all declared at the top level of that schema; and the request does not
-- give both of two permissions that exclude each other.
pub validate-Allowed :
    (t : Texts) (document methods : Members) (method : String) (params : Members)
    → validate t document methods method params ≡ ok tt
    → Allowed t document methods method params
unfolding validate check_fields
validate-Allowed t document methods method params h =
    let (free, h1) = raise_if-eq-ok (any (str_eq method) forbidden) _ _ h in
    let (schema, s, h2) = >>=-eq-ok (or_raise (get method methods) value_error) _ h1 in
    let (valid, h3) = >>-eq-ok (validate_value t document nesting (obj params) schema) _ h2 in
    let (m, d, h4) = >>=-eq-ok (dict_of schema) _ h3 in
    let (top, is_top, h5) = >>=-eq-ok (top_schema t document m) _ h4 in
    let (f, h6) = >>-eq-ok (check_fields params top) _ h5 in
    let (thread, h7) =
      raise_if-eq-ok (excludes "thread/start" method "permissions" "sandbox" params) _ _ h6 in
    let same = dict_of-obj schema m d in
    record {
      schema = m;
      top = top;
      not_fork = ground arith;
      not_delete = ground arith;
      installed = or_raise-eq-ok _ _ s ∙ ap some same;
      meets =
          subst (Meets t document nesting (obj params)) same
            (validate_value-Meets t document nesting (obj params) schema valid);
      is_top = is_top;
      declared = check_properties-DeclaredBy params (get "properties" top) f;
      thread_permissions = thread;
      turn_permissions = ground arith;
    }
