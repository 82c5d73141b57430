-- ===== src/Events/Usage.antt =====
-- What an accepted usage observation says of its counts.
use context_rollover_guard.Prelude.{
  if-eq-ok, >>-eq-ok, raise_if-eq-ok, ℕ, ◌+◌, String, ◌≡◌, refl, sym, ap, ◌∙◌, subst, ◌⊎◌, inl, inr,
  false, ◌&&◌, not, Option, none, some, List, arith, str_eq, if◌then◌else◌, ok, err, or_raise,
  >>=-eq-ok,
}
use context_rollover_guard.Json.{
  put, get-put, get-put_other, Json, Members, null, int, str, obj, get,
}
use context_rollover_guard.Prelude.Int.{pos}
use context_rollover_guard.Events.{
  check_fields, check_head, meta, data_at, check_meta, is_given, contract_names, aggregation_names,
  semantics_names, value_error, Instants, is_text, differs, count_of, count_in, exceeds, with_total,
  check_subsets, check_usage, checked_data, observation, data_in, with_optional, with_instant,
  kind_of, fields_of, in_texts, within, data_of, check_version,
}

abbrev pub IsTotal : Option ℕ → Option ℕ → Option ℕ → Type 0
IsTotal (some i) (some o) total = total ≡ some (i + o)
IsTotal _ _ total = Unit

-- No subset exceeds its whole, and the total is the sum of input and output where both are known.
pub record Consistent (m : Members) : Type 0 where
  pub cached : exceeds (count_of "cached_input_tokens" m) (count_of "input_tokens" m) ≡ false
  pub reasoning :
      exceeds (count_of "reasoning_output_tokens" m) (count_of "output_tokens" m) ≡ false
  pub total :
      IsTotal (count_of "input_tokens" m) (count_of "output_tokens" m) (count_of "total_tokens" m)

count_of-put_other :
    (j k : String) (v : Json) (m : Members)
    → str_eq k j ≡ false
    → count_of j (put k v m) ≡ count_of j m
count_of-put_other j k v m h = ap count_in (get-put_other j k v m h)

IsTotal-unknown : (a b t : Option ℕ) → (a ≡ none) ⊎ (b ≡ none) → IsTotal a b t
IsTotal-unknown none b t h = tt
IsTotal-unknown (some i) none t h = tt
IsTotal-unknown (some i) (some o) t (inl e) = cc
IsTotal-unknown (some i) (some o) t (inr e) = cc

total-eq : {i o : ℕ} (a b t : Option ℕ) → a ≡ some i → b ≡ some o → t ≡ some (i + o) → IsTotal a b t
total-eq {i} {o} a b t x y h =
    subst (λ q. IsTotal q b t) (sym x) (subst (λ q. IsTotal (some i) q t) (sym y) h)

exceeds-eq : (a a' b b' : Option ℕ) → a ≡ a' → b ≡ b' → exceeds a' b' ≡ false → exceeds a b ≡ false
exceeds-eq a a' b b' x y h =
    subst (λ o. exceeds o b ≡ false) (sym x) (subst (λ o. exceeds a' o ≡ false) (sym y) h)

with_total-Consistent :
    (a b : Option ℕ) (m p : Members)
    → count_of "input_tokens" m ≡ a
    → count_of "output_tokens" m ≡ b
    → exceeds (count_of "cached_input_tokens" m) (count_of "input_tokens" m) ≡ false
    → exceeds (count_of "reasoning_output_tokens" m) (count_of "output_tokens" m) ≡ false
    → with_total a b m ≡ ok p
    → Consistent p
unfolding with_total
with_total-Consistent (some i) (some o) m p ia ob cached reasoning h =
    let (same_total, h1) =
      raise_if-eq-ok (differs (count_of "total_tokens" m) (i + o)) value_error _ h in
    let made = put "total_tokens" (int (pos (i + o))) m in
    let kept : (k : String) → str_eq "total_tokens" k ≡ false → count_of k made ≡ count_of k m =
      λ k apart. count_of-put_other k "total_tokens" _ m apart in
    let same_one : made ≡ p = ground arith in
    subst Consistent same_one (record {
      cached =
          exceeds-eq _ _ _ _ (kept "cached_input_tokens" refl) (kept "input_tokens" refl) cached;
      reasoning =
          exceeds-eq _ _ _ _ (kept "reasoning_output_tokens" refl) (kept "output_tokens" refl)
            reasoning;
      total =
          total-eq _ _ _ (kept "input_tokens" refl ∙ ia) (kept "output_tokens" refl ∙ ob)
            (ap count_in (get-put "total_tokens" (int (pos (i + o))) m));
    })
with_total-Consistent none b m p ia ob cached reasoning h =
    subst Consistent (ground arith)
      (record { cached = cached; reasoning = reasoning; total = IsTotal-unknown _ _ _ (inl ia) })
with_total-Consistent (some i) none m p ia ob cached reasoning h =
    subst Consistent (ground arith)
      (record { cached = cached; reasoning = reasoning; total = IsTotal-unknown _ _ _ (inr ob) })

check_subsets-Consistent : (m p : Members) → check_subsets m ≡ ok p → Consistent p
unfolding check_subsets
check_subsets-Consistent m p h =
    let (cached, h1) =
      raise_if-eq-ok (exceeds (count_of "cached_input_tokens" m) (count_of "input_tokens" m))
        value_error _ h in
    let (reasoning, h2) =
      raise_if-eq-ok (exceeds (count_of "reasoning_output_tokens" m) (count_of "output_tokens" m))
        value_error _ h1 in
    with_total-Consistent _ _ m p refl refl cached reasoning h2

in_texts-eq : (names : List String) (s t : String) → in_texts names (some (str s)) ≡ ok t → t ≡ s
unfolding in_texts
in_texts-eq names s t h = ground arith

check_usage-Consistent :
    (m p : Members)
    → get "subset_contract" m ≡ some (str "input_output_include_subsets")
    → check_usage m ≡ ok p
    → Consistent p
unfolding check_usage in_texts
check_usage-Consistent m p contract h =
    let (semantics, s, h1) = >>=-eq-ok (in_texts semantics_names (get "semantics" m)) _ h in
    let (aggregation, a, h2) = >>=-eq-ok (in_texts aggregation_names (get "aggregation" m)) _ h1 in
    let (name, c, h3) = >>=-eq-ok (in_texts contract_names (get "subset_contract" m)) _ h2 in
    let is_name =
      in_texts-eq contract_names "input_output_include_subsets" name
        (subst (λ v. in_texts contract_names v ≡ ok name) contract c) in
    let (grounded, h4) =
      raise_if-eq-ok (str_eq semantics "cumulative_snapshot" && not (is_text (get "generation" m)))
        value_error _ h3 in
    check_subsets-Consistent m p (
      subst
        (λ t. (if str_eq t "input_output_include_subsets" then check_subsets m else ok m) ≡ ok p)
        is_name h4)

with_instant-get :
    (i : Instants) (k j : String) (m p : Members)
    → str_eq k j ≡ false
    → with_instant i k m ≡ ok p
    → get j p ≡ get j m
unfolding with_instant
with_instant-get i k j m p apart h =
    let (at, a, h1) =
      >>=-eq-ok (or_raise (i.instant (elim (get k m) [ none ↦ null | some v ↦ v ])) value_error) _
        h in
    let same_one : put k (str at) m ≡ p = ground arith in
    ap (get j) (sym same_one) ∙ get-put_other j k (str at) m apart

with_optional-get :
    (i : Instants) (k j : String) (m p : Members)
    → str_eq k j ≡ false
    → with_optional i k m ≡ ok p
    → get j p ≡ get j m
unfolding with_optional
with_optional-get i k j m p apart h = elim (if-eq-ok (is_given (get k m)) _ _ h) [
  | inl (given, made) ↦ with_instant-get i k j m p apart made
  | inr (missing, kept) ↦ ground arith
]

checked_data-Consistent :
    (i : Instants) (names : List String) (raw p : Members)
    → get "subset_contract" raw ≡ some (str "input_output_include_subsets")
    → checked_data i "usage" names raw ≡ ok p
    → Consistent p
unfolding checked_data
checked_data-Consistent i names raw p contract h =
    let (fields, h1) = >>-eq-ok (check_fields names raw) _ h in
    let (origin, o, h2) = >>=-eq-ok (with_optional i "zero_origin_at" raw) _ h1 in
    let (reset, r, h3) = >>=-eq-ok (with_optional i "reset_at" origin) _ h2 in
    check_usage-Consistent reset p
      (with_optional-get i "reset_at" "subset_contract" origin reset refl r
        ∙ with_optional-get i "zero_origin_at" "subset_contract" raw origin refl o
        ∙ contract)
      h3

check_head-kind :
    (row : Members) (kind : String × List String)
    → get "kind" row ≡ some (str "usage")
    → check_head row ≡ ok kind
    → kind.0 ≡ "usage"
unfolding check_head kind_of fields_of
check_head-kind row kind is_usage h =
    let (w, h1) = raise_if-eq-ok (not (within meta row)) value_error _ h in
    let (v, h2) = >>-eq-ok (check_version (get "schema_version" row)) _ h1 in
    let found = subst (λ o. kind_of o ≡ ok kind) is_usage h2 in
    ap (λ r. elim r [ ok k ↦ k.0 | err e ↦ "usage" ]) (sym found)

data_of-eq : (raw m : Members) → data_of (some (obj raw)) ≡ ok m → raw ≡ m
data_of-eq raw m h = ground arith

-- An observation of usage that the contract accepts, and whose input and output include their
-- subsets, has no subset that exceeds its whole; and where it knows input and output, its total is
-- their sum.
pub observation-Consistent :
    (i : Instants) (row raw p : Members)
    → get "kind" row ≡ some (str "usage")
    → get "data" row ≡ some (obj raw)
    → get "subset_contract" raw ≡ some (str "input_output_include_subsets")
    → observation i row ≡ ok p
    → Consistent (data_in p)
unfolding observation
observation-Consistent i row raw p is_usage has_data contract h =
    let (kind, k, h0) = >>=-eq-ok (check_head row) _ h in
    let (around, h1) = >>-eq-ok (check_meta i row) _ h0 in
    let (observed, o, h2) = >>=-eq-ok (with_instant i "observed_at" row) _ h1 in
    let (received, r, h3) = >>=-eq-ok (with_instant i "received_at" observed) _ h2 in
    let (m, d, h4) = >>=-eq-ok (data_of (get "data" received)) _ h3 in
    let (checked, c, h5) = >>=-eq-ok (checked_data i kind.0 kind.1 m) _ h4 in
    let same_data : get "data" received ≡ some (obj raw) =
      with_instant-get i "received_at" "data" observed received refl r
      ∙ with_instant-get i "observed_at" "data" row observed refl o
      ∙ has_data in
    let same_raw = data_of-eq raw m (subst (λ o. data_of o ≡ ok m) same_data d) in
    let same_one : put "data" (obj checked) received ≡ p = ground arith in
    let from_data : data_in p ≡ checked =
      ap data_in (sym same_one) ∙ ap data_at (get-put "data" (obj checked) received) in
    subst Consistent (sym from_data) (
      checked_data-Consistent i kind.1 m checked
        (subst (λ r. get "subset_contract" r ≡ some (str "input_output_include_subsets")) same_raw
          contract)
        (subst (λ t. checked_data i t kind.1 m ≡ ok checked) (check_head-kind row kind is_usage k)
          c))
