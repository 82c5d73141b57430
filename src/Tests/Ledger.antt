-- ===== src/Tests/Ledger.antt =====
-- Two events of one scope, and a cumulative counter.
use context_rollover_guard.Errors.{Exc}
use context_rollover_guard.Prelude.{
  ℕ, String, ◌≡◌, refl, true, false, Option, none, some, [], arith, str_eq, ltb, if◌then◌else◌,
  Result, ok, err,
}
use context_rollover_guard.Json.{
  put, Json, Items, Members, int, str, arr, nil, cons, end, member, get,
}
use context_rollover_guard.Prelude.Int.{pos}
use context_rollover_guard.Ledger.Legacy.{
  Clock, Tables, Usage, checked_event, find, insert, placed, all_storable, add, totals_in, known,
  sum, summary, usage, projected, known_fields, check_filled, filled, check_counts, nonnegative,
  semantics_of, values, select, latest, newer, resets, increments, increment, project,
}
use context_rollover_guard.Ledger.Replay.{add-replay}
use context_rollover_guard.Ledger.Intervals.{Sum, usage-Sum}

-- Instants are "a" to "d", in this order.
abbrev place : String → ℕ
place s = if str_eq s "a" then 1 else if str_eq s "b" then 2 else if str_eq s "c" then 3 else 4

abbrev instant : Option Json → Option String
instant (some (str s)) = some s
instant _ = none

abbrev last_text : Items → String
last_text nil = ""
last_text (cons (str s) nil) = s
last_text (cons x xs) = last_text xs

abbrev name_of : Json → String
name_of (arr xs) = last_text xs
name_of _ = "hash"

abbrev clock : Clock
clock = record {
  identity = name_of;
  timestamp = instant;
  precedes = λ a b. ltb (place a) (place b);
}

ordered : (a b d : ℕ) → ltb a b ≡ true → ltb b d ≡ true → ltb a d ≡ true
ordered a b d h k = ground arith

precedes_trans :
    (a b d : String)
    → clock.precedes a b ≡ true
    → clock.precedes b d ≡ true
    → clock.precedes a d ≡ true
precedes_trans a b d h k = ordered (place a) (place b) (place d) h k

abbrev event : String → String → ℕ → Members
event id at n = member "source_event_id" (str id) (
    member "source_kind" (str "rollout") (
      member "source_scope" (str "local") (
        member "completion_state" (str "completed") (
          member "counter_semantics" (str "cumulative") (
            member "total_tokens" (int (pos n))
              (member "model_id" (str "m") (member "observed_at" (str at) end)))))))

abbrev empty : Tables
empty = record { rows = []; counters = [] }

abbrev after : Result Exc (String × Tables) → Tables
after (ok (id, t)) = t
after (err e) = empty

abbrev first_tables : Tables
first_tables = after (add clock (event "1" "a" 10) empty)

abbrev both : Tables
both = after (add clock (event "2" "b" 25) first_tables)

added : add clock (event "1" "a" 10) empty ≡ ok ("1", first_tables)
unfolding add checked_event insert put known_fields check_filled filled check_counts nonnegative
    semantics_of values select latest newer resets increments increment project projected placed
    all_storable find get
added = refl

abbrev of_interval : String → String → Result Exc Usage
of_interval from to = usage clock "local" (some (str from)) (some (str to)) both

abbrev of_both : Usage
of_both = record {
  known_total_tokens = some 15;
  sample_count = 2;
  known_samples = 1;
  unknown_samples = 1;
  is_partial = true;
}

abbrev of_first : Usage
of_first = record {
  known_total_tokens = none;
  sample_count = 1;
  known_samples = 0;
  unknown_samples = 1;
  is_partial = true;
}

abbrev of_second : Usage
of_second = record {
  known_total_tokens = some 15;
  sample_count = 1;
  known_samples = 1;
  unknown_samples = 0;
  is_partial = false;
}

-- The second observation counts the increment.
counted : of_interval "a" "c" ≡ ok of_both
unfolding usage totals_in known sum summary add checked_event insert put known_fields check_filled
    filled check_counts nonnegative semantics_of values select latest newer resets increments
    increment project projected placed find get all_storable
counted = refl

counted_first : of_interval "a" "b" ≡ ok of_first
unfolding usage totals_in known sum summary add checked_event insert put known_fields check_filled
    filled check_counts nonnegative semantics_of values select latest newer resets increments
    increment project projected placed find get all_storable
counted_first = refl

counted_second : of_interval "b" "c" ≡ ok of_second
unfolding usage totals_in known sum summary add checked_event insert put known_fields check_filled
    filled check_counts nonnegative semantics_of values select latest newer resets increments
    increment project projected placed find get all_storable
counted_second = refl

usage-Sum_example : Sum of_both of_first of_second
usage-Sum_example =
    usage-Sum clock precedes_trans "local" (some (str "a")) (some (str "b")) (some (str "c")) both
      of_both of_first of_second counted counted_first counted_second

add-replay_example : add clock (event "1" "a" 10) first_tables ≡ ok ("1", first_tables)
add-replay_example = add-replay clock (event "1" "a" 10) empty first_tables "1" added
