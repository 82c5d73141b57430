-- ===== src/Config/Updates.antt =====
-- What a document gives a field, and what an update leaves of a field.
use context_rollover_guard.Config.Resolve.{named_section, Document, same_section, update_fields}
use context_rollover_guard.Config.{Section, Fields, Value, field, set_field, sections}
use context_rollover_guard.Prelude.{
  String, ◌≡◌, refl, sym, subst, inl, inr, false, Option, none, some, List, [], ◌∷◌, arith, str_eq,
  eq_iff, if◌then◌else◌, Bool-cases, Option-cases,
}

-- The last entry of a name, as an update leaves it.
unfoldable pub last_field : {A : Type 0} → String → List (String × A) → Option A
last_field k [] = none
last_field k ((j, v) ∷ rest) = elim (last_field k rest) [
  | some w ↦ some w
  | none ↦ if str_eq j k then some v else none
]

abbrev pub or_else : {A : Type 0} → Option A → Option A → Option A
or_else none o = o
or_else (some a) o = some a

abbrev pub entry_of : Option Section → Section → String → Option Fields → Option Value
entry_of (some x) s k (some values) = if same_section s x then last_field k values else none
entry_of _ s k _ = none

-- The value that a document gives a field.
unfoldable pub given : Document → Section → String → Option Value
given [] s k = none
given ((name, values) ∷ rest) s k =
    or_else (given rest s k) (entry_of (named_section name sections) s k values)

module _ {A : Type 0} where
  field-set_field :
      (k : String) (v : A) (fs : List (String × A)) → field k (set_field k v fs) ≡ some v
  unfolding field set_field
  field-set_field k v [] = ground (arith, eq_iff k k)
  field-set_field k v ((j, w) ∷ rest) = elim (Bool-cases (str_eq j k)) [
    | inl hit ↦ ground arith
    | inr miss ↦ ground (arith, field-set_field k v rest)
  ]

  field-set_field_other :
      (j k : String) (v : A) (fs : List (String × A))
      → str_eq j k ≡ false
      → field k (set_field j v fs) ≡ field k fs
  unfolding field set_field
  field-set_field_other j k v [] h = ground arith
  field-set_field_other j k v ((i, w) ∷ rest) h = elim (Bool-cases (str_eq i j)) [
    | inl hit ↦
        let same_key : i ≡ j = ground (arith, eq_iff i j) in
        let apart : str_eq i k ≡ false = subst (λ x. str_eq x k ≡ false) (sym same_key) h in
        ground arith
    | inr miss ↦ elim (Bool-cases (str_eq i k)) [
      | inl same_key ↦ ground arith
      | inr apart ↦ ground (arith, field-set_field_other j k v rest h)
    ]
  ]

module _ {A B : Type 0} (f : A → B) where
  abbrev pub mapped : Option A → Option B
  mapped none = none
  mapped (some a) = some (f a)

  -- After an update a field has its last new value, or the old one.
  pub field-update_fields :
      (k : String) (values : List (String × A)) (old : List (String × B))
      → field k (update_fields f values old) ≡ or_else (mapped (last_field k values)) (field k old)
  unfolding update_fields last_field
  field-update_fields k [] old = refl
  field-update_fields k ((j, v) ∷ rest) old =
      let later = field-update_fields k rest (set_field j (f v) old) in
      elim (Option-cases (last_field k rest)) [
        | inr (w, there) ↦ ground arith
        | inl absent ↦ elim (Bool-cases (str_eq j k)) [
          | inl hit ↦
              let same_key : j ≡ k = ground (arith, eq_iff j k) in
              let now : field k (set_field j (f v) old) ≡ some (f v) =
                subst (λ x. field k (set_field x (f v) old) ≡ some (f v)) (sym same_key)
                  (field-set_field k (f v) old) in
              ground arith
          | inr miss ↦ ground (arith, field-set_field_other j k (f v) old miss)
        ]
      ]

abbrev pub labelled : String → Option Value → Option String
labelled label none = none
labelled label (some v) = some label

pub mapped_id : (o : Option Value) → mapped (λ (v : Value). v) o ≡ o
mapped_id none = refl
mapped_id (some v) = refl

pub mapped_label :
    (label : String) (o : Option Value) → mapped (λ (v : Value). label) o ≡ labelled label o
mapped_label label none = refl
mapped_label label (some v) = refl

pub or_else_assoc :
    {A : Type 0} (a b c : Option A) → or_else (or_else a b) c ≡ or_else a (or_else b c)
or_else_assoc none b c = refl
or_else_assoc (some x) b c = refl

pub or_else_assoc4 :
    {A : Type 0} (a b c e f : Option A)
    → or_else (or_else a (or_else b (or_else c e))) f
      ≡ or_else a (or_else b (or_else c (or_else e f)))
or_else_assoc4 (some x) b c e f = refl
or_else_assoc4 none (some x) c e f = refl
or_else_assoc4 none none (some x) e f = refl
or_else_assoc4 none none none e f = refl

pub labelled-or_else :
    (label : String) (a b : Option Value)
    → labelled label (or_else a b) ≡ or_else (labelled label a) (labelled label b)
labelled-or_else label none b = refl
labelled-or_else label (some v) b = refl
