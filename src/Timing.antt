-- ===== src/Timing.antt =====
-- Milestones and intervals of a task (crg/timing.py).
pub mod Union
pub mod Summary
pub mod Segments
use context_rollover_guard.Prelude.{
  ℕ, ◌+◌, ◌-◌, max, Bool, true, false, ◌&&◌, ◌||◌, not, Option, none, some, List, [], ◌∷◌, ltb, leb,
  ◌==◌, if◌then◌else◌, Result, ok, err, ◌>>=◌, ◌>>◌, raise_if, or_raise,
}
use context_rollover_guard.Prelude.Int.{ℤ}
use context_rollover_guard.Numbers.{number}

pub data TimingError : Type 0 where
  invalid_number invalid_interval : TimingError
  bad_timestamp unknown_event conflicting_replay outside_task not_comparable : TimingError
  bad_acceptance : TimingError

abbrev pub Interval : Type 0
Interval = ℕ × ℕ

abbrev pub checked : Option ℤ → Result TimingError (Option ℕ)
checked v = elim (number v) [ ok n ↦ ok n | err e ↦ err invalid_number ]

-- One round of the first loop of `union_ms`.
unfoldable pub check_interval : Option ℤ × Option ℤ → Result TimingError Interval
unfolding number
check_interval (start, end) = do
  s ← checked start
  e ← checked end
  s' ← or_raise s invalid_interval
  e' ← or_raise e invalid_interval
  raise_if (ltb e' s') invalid_interval
  ok (s', e')

unfoldable pub check_intervals : List (Option ℤ × Option ℤ) → Result TimingError (List Interval)
check_intervals [] = ok []
check_intervals (i ∷ is) = do i' ← check_interval i; is' ← check_intervals is; ok (i' ∷ is')

-- The order of tuples.
abbrev pub before : Interval → Interval → Bool
before (a, b) (c, d) = ltb a c || (a == c && leb b d)

-- sorted(ordered)
unfoldable pub insert : Interval → List Interval → List Interval
insert i [] = i ∷ []
insert i (j ∷ js) = let rest = insert i js in if before i j then i ∷ j ∷ js else j ∷ rest

unfoldable pub sorted : List Interval → List Interval
unfolding insert
sorted [] = []
sorted (i ∷ is) = insert i (sorted is)

-- The second loop; `none` is the `last` of its first round.
unfoldable pub sweep : ℕ → Option ℕ → List Interval → ℕ
sweep total last [] = total
sweep total none ((start, end) ∷ is) = sweep (total + (end - start)) (some end) is
sweep total (some last) ((start, end) ∷ is) =
    sweep (total + (if ltb last end then end - max start last else 0)) (some (max last end)) is

unfoldable pub union_ms : List (Option ℤ × Option ℤ) → Result TimingError ℕ
union_ms is = do ordered ← check_intervals is; ok (sweep 0 none (sorted ordered))
