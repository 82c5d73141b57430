-- ===== src/Protocol/Grants.antt =====
-- The validator's checks against what a schema asks of a value.
use context_rollover_guard.Prelude.Int.{ℤ, pos}
use context_rollover_guard.Prelude.{
  subst, err, if-eq-ok, raise_if-eq-ok, >>-eq-ok, ℕ, zero, suc, ◌≤◌, String, ◌≡◌, refl, ◌⊎◌, inl,
  inr, true, false, not, Option, none, some, arith, Result, ok, >>=-eq-ok, Result-cases, Bool-cases,
}
use context_rollover_guard.Json.{
  Json, Items, Members, null, bool, int, real, str, arr, obj, nil, cons, end, member, get, same,
}
use context_rollover_guard.Protocol.Schema.{
  Texts, items_of, dict_of, each, accepted, is_value_error, count_items, any_kind, kinds_of,
  check_type, check_enum, check_union, has_key, has_keys, or_else, property_schema, each_property,
  check_object, fraction_of, check_length, check_pattern, check_minimum, check_maximum, check_value,
  definition_of, check_ref, check_schema, validate_value,
}
use context_rollover_guard.Settings.{truthy}
use context_rollover_guard.Errors.{Exc}
use context_rollover_guard.Protocol.Meets.{
  OnlySchema, OneOf, EachRefused, EachItem, EverySchema, SomeSchema, Properties, AllOf, AnyOf,
  Referred, HasKeys, Typed, Listed, AtLeast, AtMost, Matches, Shaped, Formed, Fits, Meets,
}

-- The parts of the validator, for a check of the nesting levels below that grants `P`.
module _ (t : Texts) (document : Members) (check : Json → Json → Result Exc (Unit {0}))
    (P : Json → Json → Type 0) (grants : (v s : Json) → check v s ≡ ok tt → P v s) where
  each-EachItem :
      (schema : Json) (xs : Items) → each (λ x. check x schema) xs ≡ ok tt → EachItem P schema xs
  unfolding each EachItem
  each-EachItem schema nil h = tt
  each-EachItem schema (cons x xs) h =
      let (a, b) = >>-eq-ok (check x schema) _ h in (grants x schema a, each-EachItem schema xs b)

  each_property-Properties :
      (props : Members) (additional : Json) (m : Members)
      → each_property check props additional m ≡ ok tt
      → Properties P props additional m
  unfolding each_property Properties
  each_property-Properties props additional end h = tt
  each_property-Properties props additional (member k v rest) h =
      let (a, b) = >>-eq-ok (check v (property_schema props additional k)) _ h in
      (
        grants v (property_schema props additional k) a,
        each_property-Properties props additional rest b,
      )

  abbrev Refused : Json → Json → Type 0
  Refused v s = (e : Exc) × (check v s ≡ err e) × (is_value_error e ≡ true)

  accepted_step :
      (v x : Json) (xs : Items) (n : ℕ)
      → accepted (check v) (cons x xs) ≡ ok n
      → ((k : ℕ) × (P v x) × (accepted (check v) xs ≡ ok k) × (n ≡ suc k))
        ⊎ (Refused v x × (accepted (check v) xs ≡ ok n))
  unfolding accepted
  accepted_step v x xs n h = elim (Result-cases (check v x)) [
    | inl (done, eq) ↦ elim (Result-cases (accepted (check v) xs)) [
      | inl (k, rest) ↦ inl (k, grants v x eq, rest, ground arith)
      | inr (e, rest) ↦ absurd (ground arith)
    ]
    | inr (e, eq) ↦ elim (Bool-cases (is_value_error e)) [
      | inl caught ↦ inr ((e, eq, caught), ground arith)
      | inr thrown ↦ absurd (ground arith)
    ]
  ]

  accepted_bound :
      (v : Json) (xs : Items) (n : ℕ) → accepted (check v) xs ≡ ok n → n ≤ count_items xs
  unfolding accepted count_items
  accepted_bound v nil n h = ground arith
  accepted_bound v (cons x xs) n h = elim (accepted_step v x xs n h) [
    | inl (k, here, rest, same) ↦ omega (arith, accepted_bound v xs k rest)
    | inr (refusal, rest) ↦ omega (arith, accepted_bound v xs n rest)
  ]

  accepted-EverySchema :
      (v : Json) (xs : Items) (n : ℕ)
      → accepted (check v) xs ≡ ok n
      → count_items xs ≤ n
      → EverySchema P v xs
  unfolding count_items EverySchema
  accepted-EverySchema v nil n h full = tt
  accepted-EverySchema v (cons x xs) n h full = elim (accepted_step v x xs n h) [
    | inl (k, here, rest, same) ↦ (here, accepted-EverySchema v xs k rest (omega arith))
    | inr (refusal, rest) ↦ absurd (omega (arith, accepted_bound v xs n rest))
  ]

  accepted-SomeSchema :
      (v : Json) (xs : Items) (n : ℕ) → accepted (check v) xs ≡ ok n → 1 ≤ n → SomeSchema P v xs
  unfolding accepted SomeSchema
  accepted-SomeSchema v nil n h positive = absurd (ground arith)
  accepted-SomeSchema v (cons x xs) n h positive = elim (accepted_step v x xs n h) [
    | inl (k, here, rest, same) ↦ inl here
    | inr (refusal, rest) ↦ inr (accepted-SomeSchema v xs n rest positive)
  ]

  accepted-EachRefused :
      (v : Json) (xs : Items) → accepted (check v) xs ≡ ok 0 → EachRefused Refused v xs
  unfolding EachRefused
  accepted-EachRefused v nil h = tt
  accepted-EachRefused v (cons x xs) h = elim (accepted_step v x xs 0 h) [
    | inl (k, here, rest, same) ↦ absurd (omega arith)
    | inr (refusal, rest) ↦ (refusal, accepted-EachRefused v xs rest)
  ]

  accepted-OnlySchema :
      (v : Json) (xs : Items) → accepted (check v) xs ≡ ok 1 → OnlySchema P Refused v xs
  unfolding accepted OnlySchema
  accepted-OnlySchema v nil h = absurd (ground arith)
  accepted-OnlySchema v (cons x xs) h = elim (accepted_step v x xs 1 h) [
    | inl (k, here, rest, same) ↦
        let is_last : k ≡ 0 = omega arith in
        inl
          (here, accepted-EachRefused v xs (subst (λ y. accepted (check v) xs ≡ ok y) is_last rest))
    | inr (refusal, rest) ↦ inr (refusal, accepted-OnlySchema v xs rest)
  ]

  check_union-AllOf :
      (v : Json) (o : Option Json) → check_union (check v) "allOf" o ≡ ok tt → AllOf P v o
  unfolding check_union
  check_union-AllOf v none h = tt
  check_union-AllOf v (some (arr xs)) h =
      let (n, counted, h1) = >>=-eq-ok (accepted (check v) xs) _ h in
      accepted-EverySchema v xs n counted (ground arith)
  check_union-AllOf v (some _) h = cc

  check_union-AnyOf :
      (v : Json) (o : Option Json) → check_union (check v) "anyOf" o ≡ ok tt → AnyOf P v o
  unfolding check_union
  check_union-AnyOf v none h = tt
  check_union-AnyOf v (some (arr xs)) h =
      let (n, counted, h1) = >>=-eq-ok (accepted (check v) xs) _ h in
      accepted-SomeSchema v xs n counted (ground arith)
  check_union-AnyOf v (some _) h = cc

  check_union-OneOf :
      (v : Json) (o : Option Json) → check_union (check v) "oneOf" o ≡ ok tt → OneOf P Refused v o
  unfolding check_union
  check_union-OneOf v none h = tt
  check_union-OneOf v (some (arr xs)) h =
      let (n, counted, h1) = >>=-eq-ok (accepted (check v) xs) _ h in
      let is_one : n ≡ 1 = ground arith in
      accepted-OnlySchema v xs (subst (λ y. accepted (check v) xs ≡ ok y) is_one counted)
  check_union-OneOf v (some _) h = cc

  check_ref-Referred :
      (v : Json) (o : Option Json)
      → check_ref t document (check v) o ≡ ok tt
      → Referred P t document v o
  unfolding check_ref
  check_ref-Referred v none h = tt
  check_ref-Referred v (some (str name)) h =
      let (is_local, h1) = raise_if-eq-ok (not (t.is_local name)) _ _ h in
      let (definition, found, h2) = >>=-eq-ok (definition_of t document name) _ h1 in
      (name, definition, refl, ground arith, found, grants v definition h2)
  check_ref-Referred v (some _) h = cc

  check_type-Typed : (v : Json) (o : Option Json) → check_type v o ≡ ok tt → Typed v o
  unfolding check_type
  check_type-Typed v none h = tt
  check_type-Typed v (some types) h = elim (if-eq-ok (truthy types) _ _ h) [
    | inr (empty, done) ↦ inl empty
    | inl (listed, h1) ↦
        let (hit, k, h2) = >>=-eq-ok (any_kind v (kinds_of types)) _ h1 in inr (ground arith)
  ]

  check_enum-Listed : (v : Json) (o : Option Json) → check_enum v o ≡ ok tt → Listed v o
  unfolding check_enum
  check_enum-Listed v none h = tt
  check_enum-Listed v (some (arr xs)) h = ground arith
  check_enum-Listed v (some _) h = cc

  check_length-AtLeast : (n : ℕ) (o : Option Json) → check_length n o ≡ ok tt → AtLeast (pos n, 0) o
  unfolding check_length
  check_length-AtLeast n none h = tt
  check_length-AtLeast n (some bound) h =
      let (least, l, h1) = >>=-eq-ok (fraction_of bound) _ h in (least, l, ground arith)

  check_minimum-AtLeast : (n : ℤ × ℕ) (o : Option Json) → check_minimum n o ≡ ok tt → AtLeast n o
  unfolding check_minimum
  check_minimum-AtLeast n none h = tt
  check_minimum-AtLeast n (some bound) h =
      let (least, l, h1) = >>=-eq-ok (fraction_of bound) _ h in (least, l, ground arith)

  check_maximum-AtMost : (n : ℤ × ℕ) (o : Option Json) → check_maximum n o ≡ ok tt → AtMost n o
  unfolding check_maximum
  check_maximum-AtMost n none h = tt
  check_maximum-AtMost n (some bound) h =
      let (most, m, h1) = >>=-eq-ok (fraction_of bound) _ h in (most, m, ground arith)

  check_pattern-Matches :
      (s : String) (o : Option Json) → check_pattern t s o ≡ ok tt → Matches t s o
  unfolding check_pattern
  check_pattern-Matches s none h = tt
  check_pattern-Matches s (some (str p)) h = (p, refl, ground arith)
  check_pattern-Matches s (some _) h = cc

  has_keys-HasKeys : (m : Members) (xs : Items) → has_keys m xs ≡ ok true → HasKeys m xs
  unfolding has_keys HasKeys
  has_keys-HasKeys m nil h = tt
  has_keys-HasKeys m (cons k rest) h =
      let (found, f, h1) = >>=-eq-ok (has_key m k) _ h in
      let (others, o, h2) = >>=-eq-ok (has_keys m rest) _ h1 in
      (ground arith, has_keys-HasKeys m rest (ground arith))

  check_object-Shaped :
      (schema m : Members) → check_object check schema m ≡ ok tt → Shaped P schema m
  unfolding check_object
  check_object-Shaped schema m h =
      let (required, r, h1) =
        >>=-eq-ok (items_of (or_else (get "required" schema) (arr nil))) _ h in
      let (found, f, h2) = >>=-eq-ok (has_keys m required) _ h1 in
      let (all_found, h3) = raise_if-eq-ok (not found) _ _ h2 in
      let (props, d, h4) = >>=-eq-ok (dict_of (or_else (get "properties" schema) (obj end))) _ h3 in
      record {
        required = required;
        props = props;
        is_required = r;
        is_props = d;
        keys = has_keys-HasKeys m required (ground arith);
        values = each_property-Properties props _ m h4;
      }

  check_value-Formed :
      (schema : Members) (v : Json) → check_value t check schema v ≡ ok tt → Formed t P schema v
  unfolding check_value
  check_value-Formed schema (obj m) h = check_object-Shaped schema m h
  check_value-Formed schema (arr xs) h =
      let (a, b) = >>-eq-ok (check_length (count_items xs) (get "minItems" schema)) _ h in
      (check_length-AtLeast (count_items xs) _ a, each-EachItem _ xs b)
  check_value-Formed schema (str s) h =
      let (a, b) = >>-eq-ok (check_length (t.length_of s) (get "minLength" schema)) _ h in
      (check_length-AtLeast (t.length_of s) _ a, check_pattern-Matches s _ b)
  check_value-Formed schema (int n) h =
      let (a, b) = >>-eq-ok (check_minimum (n, 0) (get "minimum" schema)) _ h in
      (check_minimum-AtLeast (n, 0) _ a, check_maximum-AtMost (n, 0) _ b)
  check_value-Formed schema (real n d) h =
      let (a, b) = >>-eq-ok (check_minimum (n, d) (get "minimum" schema)) _ h in
      (check_minimum-AtLeast (n, d) _ a, check_maximum-AtMost (n, d) _ b)
  check_value-Formed schema null h = tt
  check_value-Formed schema (bool b) h = tt

  check_schema-Fits :
      (v : Json) (schema : Members)
      → check_schema t document check v schema ≡ ok tt
      → Fits t document P Refused v schema
  unfolding check_schema
  check_schema-Fits v schema h =
      let (a, h1) = >>-eq-ok (check_ref t document (check v) (get "$ref" schema)) _ h in
      let (b, h2) = >>-eq-ok (check_union (check v) "allOf" (get "allOf" schema)) _ h1 in
      let (c, h3) = >>-eq-ok (check_union (check v) "anyOf" (get "anyOf" schema)) _ h2 in
      let (d, h4) = >>-eq-ok (check_union (check v) "oneOf" (get "oneOf" schema)) _ h3 in
      let (e, h5) = >>-eq-ok (check_type v (get "type" schema)) _ h4 in
      let (f, h6) = >>-eq-ok (check_enum v (get "enum" schema)) _ h5 in
      record {
        refers = check_ref-Referred v _ a;
        all_of = check_union-AllOf v _ b;
        any_of = check_union-AnyOf v _ c;
        one_of = check_union-OneOf v _ d;
        typed = check_type-Typed v _ e;
        listed = check_enum-Listed v _ f;
        formed = check_value-Formed schema v h6;
      }

-- A value that the validator accepts meets the schema.
pub validate_value-Meets :
    (t : Texts) (document : Members) (n : ℕ) (v s : Json)
    → validate_value t document n v s ≡ ok tt
    → Meets t document n v s
unfolding validate_value Meets
validate_value-Meets t document zero v s h = cc
validate_value-Meets t document (suc n) v (bool true) h = tt
validate_value-Meets t document (suc n) v (bool false) h = cc
validate_value-Meets t document (suc n) v (obj schema) h =
    check_schema-Fits t document (validate_value t document n) (Meets t document n)
      (validate_value-Meets t document n) v schema h
validate_value-Meets t document (suc n) v null h = cc
validate_value-Meets t document (suc n) v (int i) h = cc
validate_value-Meets t document (suc n) v (real i d) h = cc
validate_value-Meets t document (suc n) v (str x) h = cc
validate_value-Meets t document (suc n) v (arr xs) h = cc
