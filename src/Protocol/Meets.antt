-- ===== src/Protocol/Meets.antt =====
-- What a schema asks of a value, stated apart from the validator.
use context_rollover_guard.Errors.{Exc}
use context_rollover_guard.Prelude.Int.{ℤ, pos}
use context_rollover_guard.Prelude.{
  err, ℕ, zero, suc, String, ◌≡◌, ◌⊎◌, true, false, Option, none, some, ok,
}
use context_rollover_guard.Json.{
  Json, Items, Members, bool, int, real, str, arr, obj, nil, cons, end, member, get,
}
use context_rollover_guard.Protocol.Schema.{
  is_value_error, validate_value, Texts, items_of, dict_of, count_items, member_of, any_kind,
  kinds_of, has_key, or_else, property_schema, less, fraction_of, definition_of,
}
use context_rollover_guard.Settings.{truthy}

unfoldable pub EachRefused : (Json → Json → Type 0) → Json → Items → Type 0
EachRefused R value nil = Unit
EachRefused R value (cons s rest) = R value s × EachRefused R value rest

-- A relation of a value and a schema: the requirement of one nesting level less.
module _ (P : Json → Json → Type 0) where
  unfoldable pub EachItem : Json → Items → Type 0
  EachItem schema nil = Unit
  EachItem schema (cons x xs) = P x schema × EachItem schema xs

  -- A value meets every schema of a list, or one of them.
  unfoldable pub EverySchema : Json → Items → Type 0
  EverySchema value nil = Unit
  EverySchema value (cons s rest) = P value s × EverySchema value rest

  unfoldable pub SomeSchema : Json → Items → Type 0
  SomeSchema value nil = ⊥
  SomeSchema value (cons s rest) = P value s ⊎ SomeSchema value rest

  -- A value meets one schema of a list, and each of the others is refused.
  unfoldable pub OnlySchema : (Json → Json → Type 0) → Json → Items → Type 0
  OnlySchema R value nil = ⊥
  OnlySchema R value (cons s rest) =
      (P value s × EachRefused R value rest) ⊎ (R value s × OnlySchema R value rest)

  unfoldable pub Properties : Members → Json → Members → Type 0
  Properties props additional end = Unit
  Properties props additional (member key item rest) =
      P item (property_schema props additional key) × Properties props additional rest

  abbrev pub AllOf : Json → Option Json → Type 0
  AllOf value none = Unit
  AllOf value (some (arr xs)) = EverySchema value xs
  AllOf value (some _) = ⊥

  abbrev pub AnyOf : Json → Option Json → Type 0
  AnyOf value none = Unit
  AnyOf value (some (arr xs)) = SomeSchema value xs
  AnyOf value (some _) = ⊥

  abbrev pub OneOf : (Json → Json → Type 0) → Json → Option Json → Type 0
  OneOf R value none = Unit
  OneOf R value (some (arr xs)) = OnlySchema R value xs
  OneOf R value (some _) = ⊥

  -- A reference is to a definition of this document.
  abbrev pub Referred : Texts → Members → Json → Option Json → Type 0
  Referred t document value none = Unit
  Referred t document value (some ref) =
      (name : String) × (definition : Json) × (ref ≡ str name)
      × (t.is_local name ≡ true)
      × (definition_of t document name ≡ ok definition)
      × P value definition

unfoldable pub HasKeys : Members → Items → Type 0
HasKeys m nil = Unit
HasKeys m (cons k rest) = (has_key m k ≡ ok true) × HasKeys m rest

abbrev pub Typed : Json → Option Json → Type 0
Typed value none = Unit
Typed value (some types) = (truthy types ≡ false) ⊎ (any_kind value (kinds_of types) ≡ ok true)

abbrev pub Listed : Json → Option Json → Type 0
Listed value none = Unit
Listed value (some (arr xs)) = member_of value xs ≡ true
Listed value (some _) = ⊥

abbrev pub AtLeast : ℤ × ℕ → Option Json → Type 0
AtLeast n none = Unit
AtLeast n (some bound) = (least : ℤ × ℕ) × (fraction_of bound ≡ ok least) × (less n least ≡ false)

abbrev pub AtMost : ℤ × ℕ → Option Json → Type 0
AtMost n none = Unit
AtMost n (some bound) = (most : ℤ × ℕ) × (fraction_of bound ≡ ok most) × (less most n ≡ false)

abbrev pub Matches : Texts → String → Option Json → Type 0
Matches t s none = Unit
Matches t s (some pattern) = (p : String) × (pattern ≡ str p) × (t.matches p s ≡ true)

-- A dictionary has the required keys, and each of its values meets its property's schema.
pub record Shaped (P : Json → Json → Type 0) (schema m : Members) : Type 0 where
  pub required : Items
  pub props : Members
  pub is_required : items_of (or_else (get "required" schema) (arr nil)) ≡ ok required
  pub is_props : dict_of (or_else (get "properties" schema) (obj end)) ≡ ok props
  pub keys : HasKeys m required
  pub values : Properties P props (or_else (get "additionalProperties" schema) (bool true)) m

abbrev pub Formed : Texts → (Json → Json → Type 0) → Members → Json → Type 0
Formed t P schema (obj m) = Shaped P schema m
Formed t P schema (arr xs) =
    AtLeast (pos (count_items xs), 0) (get "minItems" schema)
    × EachItem P (or_else (get "items" schema) (bool true)) xs
Formed t P schema (str s) =
    AtLeast (pos (t.length_of s), 0) (get "minLength" schema) × Matches t s (get "pattern" schema)
Formed t P schema (int n) =
    AtLeast (n, 0) (get "minimum" schema) × AtMost (n, 0) (get "maximum" schema)
Formed t P schema (real n d) =
    AtLeast (n, d) (get "minimum" schema) × AtMost (n, d) (get "maximum" schema)
Formed t P schema _ = Unit

-- All that a schema's keywords ask of a value: `P` says which schemas it meets, `R` which refuse it.
pub record Fits (t : Texts) (document : Members) (P R : Json → Json → Type 0) (value : Json)
    (schema : Members) : Type 0 where
  pub refers : Referred P t document value (get "$ref" schema)
  pub all_of : AllOf P value (get "allOf" schema)
  pub any_of : AnyOf P value (get "anyOf" schema)
  pub one_of : OneOf P R value (get "oneOf" schema)
  pub typed : Typed value (get "type" schema)
  pub listed : Listed value (get "enum" schema)
  pub formed : Formed t P schema value

-- The validator raises a ValueError on the value at a nesting level.
abbrev pub Refuses : Texts → Members → ℕ → Json → Json → Type 0
Refuses t document n value schema =
    (e : Exc) × (validate_value t document n value schema ≡ err e) × (is_value_error e ≡ true)

unfoldable pub Meets : Texts → Members → ℕ → Json → Json → Type 0
Meets t document zero value schema = ⊥
Meets t document (suc n) value (bool true) = Unit
Meets t document (suc n) value (obj schema) =
    Fits t document (Meets t document n) (Refuses t document n) value schema
Meets t document (suc n) value _ = ⊥
