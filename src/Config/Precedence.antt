-- ===== src/Config/Precedence.antt =====
-- Which source gives each field of a resolved configuration its value.
use context_rollover_guard.Config.Updates.{
  mapped_label, mapped_id, field-update_fields, labelled-or_else, or_else_assoc, or_else_assoc4,
  entry_of, labelled, last_field, given, or_else,
}
use context_rollover_guard.Prelude.{raise_if-eq-ok, >>-eq-ok}
use context_rollover_guard.Config.Resolve.{
  config_of, well_typed, document_of, Source, initial, first_labels, resolve_config, merge,
  object_of, known_fields, merge_sections, checked_section, Merged, named_section, Document,
  same_section, merge_section,
}
use context_rollover_guard.Config.{
  validate_config, defaults, value_error, Config, Section, Fields, Value, field, sections,
}
use context_rollover_guard.Prelude.{
  String, ◌≡◌, sym, ap, ◌∙◌, subst, inl, inr, not, Option, none, some, List, [], ◌∷◌, arith, str_eq,
  eq_iff, if◌then◌else◌, is_some, all, ok, >>=-eq-ok, Bool-cases, Option-cases,
}

-- What one table changes.
merge_section-given :
    (label : String) (x s : Section) (k : String) (values : Fields) (m : Merged)
    → let new = if same_section s x then last_field k values else none in
      (field k ((merge_section label x values m).values s) ≡ or_else new (field k (m.values s)))
      × (field k ((merge_section label x values m).labels s)
          ≡ or_else (labelled label new) (field k (m.labels s)))
unfolding merge_section
merge_section-given label x s k values m = elim (Bool-cases (same_section s x)) [
  | inr other ↦ (ground arith, ground arith)
  | inl same_one ↦ (
    ground (
      arith,
      field-update_fields (λ (v : Value). v) k values (m.values s),
      mapped_id (last_field k values),
    ),
    ground (
      arith,
      field-update_fields (λ (v : Value). label) k values (m.labels s),
      mapped_label label (last_field k values),
    ),
  )
]

checked_section-ok :
    (o : Option Section) (values : Option Fields) (x : Section) (vs : Fields)
    → checked_section o values ≡ ok (x, vs)
    → (o ≡ some x) × (values ≡ some vs)
checked_section-ok none values x vs h = absurd (ground arith)
checked_section-ok (some y) none x vs h = absurd (ground arith)
checked_section-ok (some y) (some ws) x vs h = elim (Bool-cases (known_fields y ws)) [
  | inl known ↦ (ground arith, ground arith)
  | inr unknown ↦ absurd (ground arith)
]

-- What one source changes.
merge_sections-given :
    (label : String) (d : Document) (m m' : Merged) (s : Section) (k : String)
    → merge_sections label d m ≡ ok m'
    → (field k (m'.values s) ≡ or_else (given d s k) (field k (m.values s)))
      × (field k (m'.labels s) ≡ or_else (labelled label (given d s k)) (field k (m.labels s)))
unfolding merge_sections given
merge_sections-given label [] m m' s k h = (ground arith, ground arith)
merge_sections-given label ((name, values) ∷ rest) m m' s k h =
    let ((x, vs), checked, h1) =
      >>=-eq-ok (checked_section (named_section name sections) values) _ h in
    let (is_named, is_table) =
      checked_section-ok (named_section name sections) values x vs checked in
    let new = if same_section s x then last_field k vs else none in
    let same_entry : entry_of (named_section name sections) s k values ≡ new =
      ap (λ o. entry_of o s k values) is_named ∙ ap (entry_of (some x) s k) is_table in
    let (now, now_label) = merge_section-given label x s k vs m in
    let (later, later_label) =
      merge_sections-given label rest (merge_section label x vs m) m' s k h1 in
    let first = given rest s k in
    let first_label = labelled label first in
    (
      later
          ∙ (ap (or_else first) now
              ∙ (sym (or_else_assoc first new (field k (m.values s)))
                  ∙ ap (λ e. or_else (or_else first e) (field k (m.values s))) (sym same_entry))),
      later_label
          ∙ (ap (or_else first_label) now_label
              ∙ (sym (or_else_assoc first_label (labelled label new) (field k (m.labels s)))
                  ∙ (ap (λ e. or_else e (field k (m.labels s)))
                        (sym (labelled-or_else label first new))
                      ∙ ap (λ e. or_else (labelled label (or_else first e)) (field k (m.labels s)))
                          (sym same_entry)))),
    )

merge-given :
    (label : String) (d : Document) (m m' : Merged) (s : Section) (k : String)
    → merge label d m ≡ ok m'
    → (field k (m'.values s) ≡ or_else (given d s k) (field k (m.values s)))
      × (field k (m'.labels s) ≡ or_else (labelled label (given d s k)) (field k (m.labels s)))
unfolding merge
merge-given label d m m' s k h =
    let (_, h1) =
      raise_if-eq-ok (not (all (λ e. is_some (named_section e.0 sections)) d)) value_error _ h in
    merge_sections-given label d m m' s k h1

field-object_of :
    (k : String) (ds values : Fields) (d : Value)
    → field k ds ≡ some d
    → field k (object_of ds values) ≡ or_else (field k values) (some d)
unfolding field object_of
field-object_of k [] values d h = absurd (ground arith)
field-object_of k ((j, w) ∷ rest) values d h = elim (Bool-cases (str_eq j k)) [
  | inr miss ↦ ground (arith, field-object_of k rest values d)
  | inl hit ↦
      let same_key : j ≡ k = ground (arith, eq_iff j k) in
      let same_value : field j values ≡ field k values = ap (λ x. field x values) same_key in
      elim (Option-cases (field k values)) [
        | inl absent ↦ ground arith
        | inr (v, there) ↦ ground arith
      ]
]

field-first_labels :
    (k : String) (ds : Fields) (d : Value)
    → field k ds ≡ some d
    → field k (first_labels ds) ≡ some "default"
unfolding field
field-first_labels k [] d h = absurd (ground arith)
field-first_labels k ((j, w) ∷ rest) d h = elim (Bool-cases (str_eq j k)) [
  | inl hit ↦ ground arith
  | inr miss ↦ ground (arith, field-first_labels k rest d)
]

-- The value of a field is that of the first of the command line, the repository's file and the
-- user's file that gives it one, and else the root of the environment or the default; its label
-- names that source.
pub record Chosen (root : String) (user repo overrides : Document) (c : Config)
    (labels : Section → List (String × String)) (s : Section) (k : String) (d : Value)
    : Type 0 where
  pub value :
      field k (c s)
      ≡ or_else (given overrides s k) (
          or_else
            (given repo s k)
            (or_else (given user s k) (or_else (field k ((initial root).values s)) (some d))))
  pub label :
      field k (labels s)
      ≡ or_else (labelled "cli" (given overrides s k)) (
          or_else
            (labelled "repo" (given repo s k))
            (or_else (labelled "user" (given user s k)) (some "default")))

-- A configuration that is resolved has for every field of every section, with default `d`, the
-- value of the first of the command line, the repository's file and the user's file that gives one,
-- and else the state root of the environment or the default; and the provenance names that source.
pub resolve_config-Chosen :
    (root : String) (user_file repo_file : Source) (user repo overrides : Document) (c : Config)
    (labels : Section → List (String × String))
    → resolve_config root user_file repo_file overrides ≡ ok (c, labels)
    → document_of user_file ≡ ok user
    → document_of repo_file ≡ ok repo
    → (s : Section) (k : String) (d : Value) → field k (defaults s) ≡ some d
    → Chosen root user repo overrides c labels s k d
unfolding resolve_config config_of initial
resolve_config-Chosen root user_file repo_file user repo overrides c labels h is_user is_repo s k d
      has_field =
    let (u, read_user, h1) = >>=-eq-ok (document_of user_file) _ h in
    let (r, read_repo, h2) = >>=-eq-ok (document_of repo_file) _ h1 in
    let (m1, merged1, h3) = >>=-eq-ok (merge "user" u (initial root)) _ h2 in
    let (m2, merged2, h4) = >>=-eq-ok (merge "repo" r m1) _ h3 in
    let (m3, merged3, h5) = >>=-eq-ok (merge "cli" overrides m2) _ h4 in
    let (_, h6) =
      raise_if-eq-ok (not (all (λ x. well_typed x (m3.values x)) sections)) value_error _ h5 in
    let (_, h7) = >>-eq-ok (validate_config (config_of m3)) _ h6 in
    let same_user : u ≡ user = ground arith in
    let same_repo : r ≡ repo = ground arith in
    let (v1, l1) = merge-given "user" u (initial root) m1 s k merged1 in
    let (v2, l2) = merge-given "repo" r m1 m2 s k merged2 in
    let (v3, l3) = merge-given "cli" overrides m2 m3 s k merged3 in
    let same_config : config_of m3 ≡ c = ground arith in
    let same_labels : m3.labels ≡ labels = ground arith in
    let value_in = λ (x : Document). given x s k in
    let merged_value = v3 ∙ ap (or_else (value_in overrides)) (v2 ∙ ap (or_else (value_in r)) v1) in
    let merged_label =
      l3
      ∙ ap (or_else (labelled "cli" (value_in overrides))) (
          l2
          ∙ ap (or_else (labelled "repo" (value_in r))) (
              l1
              ∙ ap (or_else (labelled "user" (value_in u)))
                  (field-first_labels k (defaults s) d has_field))) in
    let value =
      ap (λ (x : Config). field k (x s)) (sym same_config)
      ∙ (field-object_of k (defaults s) (m3.values s) d has_field
          ∙ (ap (λ x. or_else x (some d)) merged_value
              ∙ or_else_assoc4 (value_in overrides) (value_in r) (value_in u)
                  (field k ((initial root).values s)) (some d))) in
    let label =
      ap (λ (x : Section → List (String × String)). field k (x s)) (sym same_labels)
      ∙ merged_label in
    subst (λ x. Chosen root x repo overrides c labels s k d) same_user
      (subst (λ x. Chosen root u x overrides c labels s k d) same_repo
        (record { value = value; label = label }))
