-- ===== src/Timing/Summary.antt =====
-- `summarize` (crg/timing.py): the milestones of a task, its segments and its external acceptance.
-- That a dictionary has exactly the expected keys is its type here.
use context_rollover_guard.Prelude.{
  ℕ, ◌-◌, String, str_eq, Bool, true, false, ◌&&◌, ◌||◌, not, Option, none, some, List, [], ◌∷◌,
  ◌++◌, any, all, ltb, leb, if◌then◌else◌, Result, ok, err, ◌>>=◌, ◌>>◌, raise_if, or_raise,
}
use context_rollover_guard.Prelude.Int.{ℤ, pos, sub_ℕ, ltb_ℤ}
use context_rollover_guard.Numbers.{same_count}
use context_rollover_guard.Timing.{
  TimingError, bad_timestamp, unknown_event, conflicting_replay, outside_task, not_comparable,
  bad_acceptance, checked, union_ms,
}

pub record Event : Type 0 where
  pub id : String
  pub kind : String
  pub process_id : String
  pub monotonic_ms : Option ℤ
  pub at : String

-- `accepted` is `none` where the value is no bool.
pub record Acceptance : Type 0 where
  pub source : String
  pub accepted : Option Bool
  pub observed : Bool
  pub monotonic_ms : Option ℤ
  pub process_id : String

pub record Summary : Type 0 where
  pub wall_ms : Option ℕ
  pub active_ms : Option ℤ
  pub tool_union_ms : Option ℕ
  pub accepted : Option Bool
  pub acceptance_ms : Option ℕ
  pub status : String
  pub censored : Bool
  pub quality_source : Option String

abbrev pub Segments : Type 0
Segments = List (Option ℤ × Option ℤ)

abbrev one_of : List String → String → Bool
one_of names name = any (str_eq name) names

abbrev finishing : List String
finishing = "completed" ∷ "cancelled" ∷ "timeout" ∷ "failed" ∷ []

abbrev kinds : List String
kinds = "submit" ∷ "accepted" ∷ "first_output" ∷ finishing

unfoldable pub same_event : Event → Event → Bool
same_event a b =
    str_eq a.id b.id
    && str_eq a.kind b.kind
    && str_eq a.process_id b.process_id
    && same_count a.monotonic_ms b.monotonic_ms
    && str_eq a.at b.at

unfoldable pub find_event : String → List Event → Option Event
find_event id [] = none
find_event id (e ∷ es) = let found = find_event id es in if str_eq e.id id then some e else found

-- One event: it is valid, and equal to the event with its id where there is one.
unfoldable pub add_event : (String → Bool) → Event → List Event → Result TimingError (List Event)
unfolding same_event find_event
add_event parses e unique = do
  raise_if (not (parses e.at)) bad_timestamp
  value ← checked e.monotonic_ms
  raise_if (not (one_of kinds e.kind)) unknown_event
  elim (find_event e.id unique) [
    | none ↦ ok (unique ++ e ∷ [])
    | some old ↦ raise_if (not (same_event old e)) conflicting_replay >> ok unique
  ]

-- The distinct events, in the order of their first occurrence.
unfoldable pub collect : (String → Bool) → List Event → List Event → Result TimingError (List Event)
collect parses unique [] = ok unique
collect parses unique (e ∷ es) = add_event parses e unique >>= λ more. collect parses more es

unfoldable pub of_kinds : List String → List Event → List Event
of_kinds names [] = []
of_kinds names (e ∷ es) =
    let rest = of_kinds names es in if one_of names e.kind then e ∷ rest else rest

abbrev only : List Event → Option Event
only (e ∷ []) = some e
only _ = none

abbrev one_process : List Event → Bool
one_process [] = false
one_process (e ∷ es) = all (λ f. str_eq f.process_id e.process_id) es

-- A task from its submission to its end.
pub record Span : Type 0 where
  pub start : ℕ
  pub finish : ℕ
  pub process_id : String
  pub status : String

abbrev count_of : Option ℤ → Option ℕ
count_of (some (pos n)) = some n
count_of _ = none

abbrev ordered : Event → Event → Option ℕ → Option ℕ → Option Span
ordered s f (some a) (some b) =
    if ltb b a
    then none
    else some (record { start = a; finish = b; process_id = s.process_id; status = f.kind })
ordered s f _ _ = none

abbrev span_of : Option Event → Option Event → Bool → Option Span
span_of (some s) (some f) true = ordered s f (count_of s.monotonic_ms) (count_of f.monotonic_ms)
span_of _ _ _ = none

-- The two early returns of `summarize` are `none`.
unfoldable pub span : List Event → Option Span
unfolding of_kinds
span rows =
    span_of (only (of_kinds ("submit" ∷ []) rows)) (only (of_kinds finishing rows))
      (one_process rows)

-- `a < start or b > finish`, where None compares with nothing
unfoldable pub outside : ℕ → ℕ → Option ℤ × Option ℤ → Result TimingError Bool
outside start finish (none, b) = err not_comparable
outside start finish (some a, b) =
    if ltb_ℤ a (pos start)
    then ok true
    else (elim b [ none ↦ err not_comparable | some b' ↦ ok (ltb_ℤ (pos finish) b') ])

unfoldable pub check_segments : ℕ → ℕ → Segments → Result TimingError (Unit {0})
check_segments start finish [] = ok tt
check_segments start finish (i ∷ is) = do
  out ← outside start finish i
  raise_if out outside_task
  check_segments start finish is

unfoldable pub duration_of : Span → Option Segments → Result TimingError (Option ℕ)
duration_of x none = ok none
duration_of x (some is) = do
  check_segments x.start x.finish is
  duration ← union_ms is
  ok (some duration)

pub record Quality : Type 0 where
  pub accepted : Option Bool
  pub acceptance_ms : Option ℕ
  pub source : Option String

abbrev acceptance_after : Span → String → Option ℕ → Option ℕ
acceptance_after x process none = none
acceptance_after x process (some value) =
    if str_eq process x.process_id && leb x.finish value then some (value - x.start) else none

unfoldable pub quality_of : Span → Option Acceptance → Result TimingError Quality
quality_of x none = ok (record { accepted = none; acceptance_ms = none; source = none })
quality_of x (some a) = do
  raise_if (not (one_of ("maintainer" ∷ "executed_tests" ∷ []) a.source) || not a.observed)
      bad_acceptance
  accepted ← or_raise a.accepted bad_acceptance
  value ← checked a.monotonic_ms
  ok (record {
    accepted = some accepted;
    acceptance_ms = acceptance_after x a.process_id value;
    source = some a.source;
  })

abbrev active_of : ℕ → Option ℕ → Option ℤ
active_of wall none = none
active_of wall (some duration) = some (sub_ℕ wall duration)

unfoldable pub measured :
    Span → Option Segments → Option Segments → Option Acceptance → Result TimingError Summary
measured x approval tools acceptance = do
  approval_union ← duration_of x approval
  tool_union ← duration_of x tools
  quality ← quality_of x acceptance
  ok (record {
    wall_ms = some (x.finish - x.start);
    active_ms = active_of (x.finish - x.start) approval_union;
    tool_union_ms = tool_union;
    accepted = quality.accepted;
    acceptance_ms = quality.acceptance_ms;
    status = x.status;
    censored = one_of ("cancelled" ∷ "timeout" ∷ []) x.status;
    quality_source = quality.source;
  })

abbrev pub incomplete : Summary
incomplete = record {
  wall_ms = none;
  active_ms = none;
  tool_union_ms = none;
  accepted = none;
  acceptance_ms = none;
  status = "INCOMPLETE";
  censored = true;
  quality_source = none;
}

-- `parses` is whether `instant` takes a timestamp.
unfoldable pub summarize :
    (String → Bool)
    → List Event
    → Option Segments
    → Option Segments
    → Option Acceptance
    → Result TimingError Summary
summarize parses events approval tools acceptance = do
  rows ← collect parses [] events
  elim (span rows) [ none ↦ ok incomplete | some x ↦ measured x approval tools acceptance ]
