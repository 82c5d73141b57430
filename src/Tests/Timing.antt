-- ===== src/Tests/Timing.antt =====
-- Overlapping, touching and separate intervals.
use context_rollover_guard.Prelude.{
  ◌≡◌, refl, ℕ, String, true, false, Option, some, List, [], ◌∷◌, ok, err, arith,
}
use context_rollover_guard.Prelude.Int.{ℤ, pos}
use context_rollover_guard.Timing.{
  union_ms, check_intervals, check_interval, sorted, sweep, insert, invalid_interval,
}
use context_rollover_guard.Timing.Segments.{FitsTogether, summarize-FitsTogether}
use context_rollover_guard.Timing.Summary.{
  Event, Acceptance, Summary, summarize, collect, add_event, find_event, same_event, span, of_kinds,
  measured, duration_of, check_segments, outside, quality_of,
}
use context_rollover_guard.Numbers.{number}
use context_rollover_guard.Timing.Union.{union_ms-measure, count_below, covered}

abbrev mixed : List (Option ℤ × Option ℤ)
mixed =
    (some (pos 7), some (pos 9)) ∷ (some (pos 1), some (pos 4)) ∷ (some (pos 2), some (pos 5)) ∷ []

mixed_total : union_ms mixed ≡ ok 6
unfolding union_ms check_intervals check_interval sorted sweep
mixed_total = refl

backwards : union_ms ((some (pos 4), some (pos 3)) ∷ []) ≡ err invalid_interval
unfolding union_ms check_intervals check_interval sorted sweep
backwards = refl

union_ms-measure_example :
    union_ms mixed ≡ ok (count_below 10 (covered ((7, 9) ∷ (1, 4) ∷ (2, 5) ∷ [])))
unfolding check_intervals check_interval
union_ms-measure_example =
    union_ms-measure mixed ((7, 9) ∷ (1, 4) ∷ (2, 5) ∷ []) 10 refl (omega arith)

abbrev event : String → String → ℕ → Event
event id kind time = record {
  id = id;
  kind = kind;
  process_id = "p";
  monotonic_ms = some (pos time);
  at = "t";
}

abbrev events : List Event
events =
    event "1" "submit" 100
    ∷ event "2" "first_output" 150
    ∷ event "3" "completed" 400
    ∷ event "1" "submit" 100
    ∷ []

abbrev waits : List (Option ℤ × Option ℤ)
waits = (some (pos 120), some (pos 140)) ∷ (some (pos 130), some (pos 150)) ∷ []

abbrev acceptance : Acceptance
acceptance = record {
  source = "maintainer";
  accepted = some true;
  observed = true;
  monotonic_ms = some (pos 500);
  process_id = "p";
}

abbrev summary : Summary
summary = record {
  wall_ms = some 300;
  active_ms = some (pos 270);
  tool_union_ms = some 30;
  accepted = some true;
  acceptance_ms = some 400;
  status = "completed";
  censored = false;
  quality_source = some "maintainer";
}

summarize-FitsTogether_example : FitsTogether summary
unfolding summarize collect add_event find_event same_event number span of_kinds measured
    duration_of check_segments outside quality_of union_ms check_intervals check_interval sorted
    insert sweep
summarize-FitsTogether_example =
    summarize-FitsTogether (λ at. true) events (some waits) (some waits) (some acceptance) summary
      refl
