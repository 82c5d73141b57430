-- ===== src/Timing/Segments.antt =====
-- What a summary's numbers are worth: segments of a task fit into its wall time.
use context_rollover_guard.Prelude.{
  ◌≡◌, ℕ, zero, suc, ◌-◌, ◌≤◌, String, Bool, true, false, Option, none, some, List, [], ◌∷◌, All,
  ok, >>=-eq-ok, Result-cases, arith, Option-cases, inl, inr,
}
use context_rollover_guard.Prelude.Int.{ℤ, pos, negsuc}
use context_rollover_guard.Timing.{Interval, check_interval, check_intervals, union_ms}
use context_rollover_guard.Timing.Union.{count_below, covered, Within, union_ms-measure}
use context_rollover_guard.Timing.Summary.{
  Event, Span, Segments, Acceptance, Summary, Quality, outside, check_segments, duration_of,
  quality_of, measured, summarize, span, collect,
}

count_below-fits :
    (n s : ℕ) (p : ℕ → Bool) → ((t : ℕ) → p t ≡ true → s ≤ t) → count_below n p ≤ n - s
unfolding count_below
count_below-fits zero s p h = omega arith
count_below-fits (suc n) s p h = ground (arith, count_below-fits n s p h, h n)

abbrev From : ℕ → List Interval → Type 0
From s is = All (λ (i : Interval). s ≤ i.0) is

covered-From : (s : ℕ) (is : List Interval) (t : ℕ) → From s is → covered is t ≡ true → s ≤ t
covered-From s [] t a h = cc
covered-From s ((x, y) ∷ is) t a h = ground (arith, covered-From s is t a.1)

-- A segment that passes both checks lies in the task.
segment-fits :
    (start finish : ℕ) (r : Option ℤ × Option ℤ) (i : Interval)
    → check_interval r ≡ ok i
    → outside start finish r ≡ ok false
    → (start ≤ i.0) × (i.1 ≤ finish)
unfolding check_interval outside
segment-fits start finish (none, b) i h k = ground arith
segment-fits start finish (some (negsuc a), b) i h k = ground arith
segment-fits start finish (some (pos a), none) i h k = ground arith
segment-fits start finish (some (pos a), some (negsuc b)) i h k = ground arith
segment-fits start finish (some (pos a), some (pos b)) i h k = ground arith

segments-fit :
    (start finish : ℕ) (raw : Segments) (is : List Interval)
    → check_intervals raw ≡ ok is
    → check_segments start finish raw ≡ ok tt
    → From start is × Within finish is
unfolding check_intervals check_segments
segments-fit start finish [] is h k = ground arith
segments-fit start finish (r ∷ raw) is h k =
    let (i, e, h1) = >>=-eq-ok (check_interval r) _ h in
    let (rest, f, h2) = >>=-eq-ok (check_intervals raw) _ h1 in
    let (out, g, k1) = >>=-eq-ok (outside start finish r) _ k in
    ground (arith, segment-fits start finish r i e, segments-fit start finish raw rest f)

-- The time that segments of a task take together is at most the wall time of the task.
pub union_ms-fits :
    (start finish : ℕ) (raw : Segments) (d : ℕ)
    → check_segments start finish raw ≡ ok tt
    → union_ms raw ≡ ok d
    → d ≤ finish - start
unfolding union_ms
union_ms-fits start finish raw d k h =
    let (is, e, h1) = >>=-eq-ok (check_intervals raw) _ h in
    let (from, within) = segments-fit start finish raw is e k in
    let m = union_ms-measure raw is finish e within in
    let b = count_below-fits finish start (covered is) (λ t. covered-From start is t from) in
    ground arith

-- Where the numbers of a summary are known, they fit together: the tool time and the active time
-- are at most the wall time, and the acceptance does not come before the end.
pub record FitsTogether (s : Summary) : Type 0 where
  pub tools : (d : ℕ) → s.tool_union_ms ≡ some d → (wall : ℕ) × (s.wall_ms ≡ some wall) × (d ≤ wall)
  pub active :
      (a : ℤ)
      → s.active_ms ≡ some a
      → (wall n : ℕ) × (s.wall_ms ≡ some wall) × (a ≡ pos n) × (n ≤ wall)
  pub acceptance :
      (m : ℕ) → s.acceptance_ms ≡ some m → (wall : ℕ) × (s.wall_ms ≡ some wall) × (wall ≤ m)

duration_of-fits :
    (x : Span) (raw : Option Segments) (o : Option ℕ) (d : ℕ)
    → duration_of x raw ≡ ok o
    → o ≡ some d
    → d ≤ x.finish - x.start
unfolding duration_of
duration_of-fits x none o d h e = ground arith
duration_of-fits x (some raw) o d h e = elim (Result-cases (check_segments x.start x.finish raw)) [
  | inr (bad, k) ↦ ground arith
  | inl (done, k) ↦ elim (Result-cases (union_ms raw)) [
    | inr (bad, u) ↦ ground arith
    | inl (n, u) ↦ ground (arith, union_ms-fits x.start x.finish raw n k u)
  ]
]

quality_of-fits :
    (x : Span) (a : Option Acceptance) (q : Quality) (m : ℕ)
    → quality_of x a ≡ ok q
    → q.acceptance_ms ≡ some m
    → x.finish - x.start ≤ m
unfolding quality_of
quality_of-fits x none q m h e = ground arith
quality_of-fits x (some a) q m h e = ground arith

measured-fits :
    (x : Span) (approval tools : Option Segments) (acceptance : Option Acceptance) (s : Summary)
    → measured x approval tools acceptance ≡ ok s
    → FitsTogether s
unfolding measured
measured-fits x approval tools acceptance s h =
    let (a, f, h1) = >>=-eq-ok (duration_of x approval) _ h in
    let (t, g, h2) = >>=-eq-ok (duration_of x tools) _ h1 in
    let (q, k, h3) = >>=-eq-ok (quality_of x acceptance) _ h2 in
    let wall = x.finish - x.start in
    record {
      tools = λ d e. (wall, ground arith, ground (arith, duration_of-fits x tools t d g));
      active = λ z e. elim (Option-cases a) [
        | inl absent ↦ ground arith
        | inr (d, there) ↦
            let fits = duration_of-fits x approval a d f there in
            (wall, wall - d, ground arith, ground (arith, fits), ground arith)
      ];
      acceptance = λ m e. (wall, ground arith, ground (arith, quality_of-fits x acceptance q m k));
    }

-- Whatever events, segments and acceptance `summarize` takes, its summary fits together: the tool
-- time and the active time are at most the wall time, the active time is never negative, and the
-- acceptance never comes before the end of the task.
pub summarize-FitsTogether :
    (parses : String → Bool) (events : List Event) (approval tools : Option Segments)
    (acceptance : Option Acceptance) (s : Summary)
    → summarize parses events approval tools acceptance ≡ ok s
    → FitsTogether s
unfolding summarize
summarize-FitsTogether parses events approval tools acceptance s h =
    let (rows, e, k) = >>=-eq-ok (collect parses [] events) _ h in
    elim (Option-cases (span rows)) [
      | inl absent ↦ record {
        tools = λ d q. ground arith;
        active = λ d q. ground arith;
        acceptance = λ d q. ground arith;
      }
      | inr (x, there) ↦ measured-fits x approval tools acceptance s (ground arith)
    ]
