-- ===== src/Tests/Canonical.antt =====
-- Two snapshots of a counter, the second revised.
use context_rollover_guard.Ledger.Legacy.{sum}
use context_rollover_guard.Errors.{Exc}
use context_rollover_guard.Prelude.{
  ℕ, String, ◌≡◌, refl, Option, none, some, [], ◌∷◌, str_eq, ltb, if◌then◌else◌, Result, ok, err,
}
use context_rollover_guard.Json.{
  put, Json, Items, Members, int, str, arr, obj, nil, cons, end, member, get, same,
}
use context_rollover_guard.Prelude.Int.{pos}
use context_rollover_guard.Events.{
  exact_usage, check_head, within, check_version, kind_of, fields_of, check_meta, each_key, bounded,
  in_texts, or_null, check_revision, with_instant, checked_data, check_fields, check_integer,
  check_bool, check_number, check_percent, check_subsets, check_usage, with_optional, with_total,
  Instants, observation, data_in,
}
use context_rollover_guard.Events.Usage.{Consistent, observation-Consistent}
use context_rollover_guard.Ledger.Canonical.{
  seen_of, fact_of, left_censored_baseline, Ids, Seen, Fact, Store, Import, find_seen, find_fact,
  update_fact, previous, following, since, growth, derived, derive, put_fact, with_fact, put_newest,
  revise, add_new, add, add_all, validated, check_cursor, moved, ingest, in_interval, summary,
  usage, content, observed_delta,
}
use context_rollover_guard.Ledger.Legacy.{known, sum}
use context_rollover_guard.Ledger.Revisions.{Kept, ingest-Kept}

abbrev at_text : Json → Option String
at_text (str s) = some s
at_text _ = none

abbrev instants : Instants
instants = record { instant = at_text; length_of = λ s. 1 }

-- The identity of a list is the text in it, of a dictionary its total.
abbrev texts : Items → String
texts nil = "series"
texts (cons (str s) rest) = s
texts (cons (arr xs) rest) = texts rest
texts (cons x rest) = "series"

abbrev name_of : Json → String
name_of (arr xs) = texts xs
name_of _ = "content"

abbrev place : String → ℕ
place s = if str_eq s "a" then 1 else if str_eq s "b" then 2 else 3

abbrev ids : Ids
ids = record { identity = name_of; precedes = λ a b. ltb (place a) (place b); instants = instants }

abbrev snapshot : ℕ → Members
snapshot n = member "semantics" (str "cumulative_snapshot") (
    member "aggregation" (str "exclusive") (
      member "subset_contract" (str "input_output_include_subsets") (
        member "generation" (str "g")
          (member "input_tokens" (int (pos n)) (member "output_tokens" (int (pos 1)) end)))))

abbrev row : String → String → String → ℕ → Members
row id fact at n = member "schema_version" (int (pos 1)) (
    member "kind" (str "usage") (
      member "observation_id" (str id) (
        member "fact_id" (str fact) (
          member "revision" (int (pos 0)) (
            member "source" (str "rollout") (
              member "adapter_version" (str "1") (
                member "scope" (str "local") (
                  member "quality" (str "verified") (
                    member "observed_at" (str at) (
                      member "received_at" (str "b")
                        (member "data" (obj (snapshot n)) end)))))))))))

abbrev or_end : Result Exc Members → Members
or_end (ok m) = m
or_end (err e) = end

abbrev payload : Members
payload = or_end (observation instants (row "o1" "a" "a" 9))

accepted : observation instants (row "o1" "a" "a" 9) ≡ ok payload
unfolding observation check_head within check_version get kind_of fields_of check_meta each_key
    bounded in_texts or_null check_revision with_instant put checked_data check_fields check_integer
    check_bool check_number check_percent check_subsets check_usage with_optional with_total
accepted = refl

observation-Consistent_example : Consistent (data_in payload)
unfolding get
observation-Consistent_example =
    observation-Consistent instants (row "o1" "a" "a" 9) (snapshot 9) payload refl refl refl
      accepted

abbrev empty : Store
empty = record { seen = []; facts = []; cursors = [] }

abbrev or_empty : Result Exc Store → Store
or_empty (ok s) = s
or_empty (err e) = empty

abbrev no_source : Import
no_source = record { source = none; expected = none; next_cursor = none }

abbrev first_store : Store
first_store = or_empty (ingest ids (row "o1" "a" "a" 9 ∷ []) no_source empty)

abbrev second_store : Store
second_store = or_empty (ingest ids (row "o2" "b" "b" 29 ∷ []) no_source first_store)

ingested : ingest ids (row "o2" "b" "b" 29 ∷ []) no_source first_store ≡ ok second_store
unfolding ingest validated moved check_cursor add_all add add_new revise put_newest with_fact
    put_fact derive derived since growth following previous update_fact find_fact find_seen content
    exact_usage same observation check_head within check_version get kind_of fields_of check_meta
    each_key bounded in_texts or_null check_revision with_instant put checked_data check_fields
    check_integer check_bool check_number check_percent check_subsets check_usage with_optional
    with_total
ingested = refl

-- The second snapshot counts the growth since the first.
counted :
    usage ids "local" (str "a") (str "c") second_store
    ≡ ok (record {
      known_total_tokens = some 20;
      sample_count = 2;
      known_samples = 1;
      unknown_samples = 1;
      reasons = observed_delta ∷ left_censored_baseline ∷ [];
    })
unfolding usage in_interval summary known sum ingest validated moved check_cursor add_all add
    add_new revise put_newest with_fact put_fact derive derived since growth following previous
    update_fact find_fact find_seen content exact_usage same observation check_head within
    check_version get kind_of fields_of check_meta each_key bounded in_texts or_null check_revision
    with_instant put checked_data check_fields check_integer check_bool check_number check_percent
    check_subsets check_usage with_optional with_total
counted = refl

abbrev first_seen : Seen
first_seen = seen_of ids payload

abbrev or_fact : Option Fact → Fact
or_fact none = fact_of ids payload none
or_fact (some f) = f

abbrev first_fact : Fact
first_fact = or_fact (find_fact "a" first_store.facts)

is_seen : find_seen "o1" first_store.seen ≡ some first_seen
unfolding ingest validated moved check_cursor add_all add add_new revise put_newest with_fact
    put_fact derive derived since growth following previous update_fact find_fact find_seen content
    exact_usage same observation check_head within check_version get kind_of fields_of check_meta
    each_key bounded in_texts or_null check_revision with_instant put checked_data check_fields
    check_integer check_bool check_number check_percent check_subsets check_usage with_optional
    with_total
is_seen = refl

is_fact : find_fact "a" first_store.facts ≡ some first_fact
unfolding ingest validated moved check_cursor add_all add add_new revise put_newest with_fact
    put_fact derive derived since growth following previous update_fact find_fact find_seen content
    exact_usage same observation check_head within check_version get kind_of fields_of check_meta
    each_key bounded in_texts or_null check_revision with_instant put checked_data check_fields
    check_integer check_bool check_number check_percent check_subsets check_usage with_optional
    with_total
is_fact = refl

ingest-Kept_example :
    (find_seen "o1" second_store.seen ≡ some first_seen) × Kept first_fact "a" second_store.facts
ingest-Kept_example =
    ingest-Kept ids (row "o2" "b" "b" 29 ∷ []) no_source first_store second_store "o1" "a"
      first_seen first_fact ingested is_seen is_fact

added : add ids payload empty ≡ ok first_store
unfolding ingest validated moved check_cursor add_all add add_new revise put_newest with_fact
    put_fact derive derived since growth following previous update_fact find_fact find_seen content
    exact_usage same observation check_head within check_version get kind_of fields_of check_meta
    each_key bounded in_texts or_null check_revision with_instant put checked_data check_fields
    check_integer check_bool check_number check_percent check_subsets check_usage with_optional
    with_total
added = refl
