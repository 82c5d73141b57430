-- ===== src/Predictor/Caution.antt =====
-- What an estimate that says "safe" leaves room for.
use context_rollover_guard.Prelude.{raise_if-eq-ok}
use context_rollover_guard.Errors.{value_error}
use context_rollover_guard.Predictor.{
  safe, Limit, median, Prediction, Settled, predict, estimate, estimate_of, token_option,
  token_count, token_list, positive_limit, newest, positives, growth_of, last_of, percentile75,
}
use context_rollover_guard.Prelude.{
  ℕ, ◌+◌, ◌*◌, ◌≤◌, ◌<◌, max, ◌≡◌, refl, sym, ap, ◌∙◌, subst, true, false, not, Option, none, some,
  List, arith, ok, >>=-eq-ok,
}
use context_rollover_guard.Prelude.Int.{ℤ, pos, negsuc}

growth_of-covers :
    (c : Settled) (history : List ℕ)
    → (last_of history ≤ growth_of c history)
      × (c.min_growth_tokens ≤ growth_of c history)
      × (percentile75 history ≤ 4 * growth_of c history)
      × (5 * median history ≤ 8 * growth_of c history)
unfolding growth_of
growth_of-covers c history =
    let q = percentile75 history in
    let l = last_of history in
    let m = median history in (ground arith, ground arith, ground arith, ground arith)

-- The room that is left below a limit after a next turn as large as what was seen and a buffer, and
-- a reserve.
pub record Fits (c : Settled) (active limit buffer : ℕ) (history : List ℕ) : Type 0 where
  pub last : active + last_of history + buffer < limit
  pub least : active + c.min_growth_tokens + buffer < limit
  pub upper_quarter : 4 * (active + buffer) + percentile75 history < 4 * limit
  pub middle : 8 * (active + buffer) + 5 * median history < 8 * limit
  pub reserve : active + c.hard_arm_remaining_tokens < limit

estimate-Fits :
    (c : Settled) (active window : ℕ) (deltas : List ℕ) (limit : ℕ)
    → (estimate c active window deltas limit).decision ≡ safe
    → Fits c active limit
        (max c.safety_buffer_tokens (c.buffer_share window))
        (newest c.window_size (positives deltas))
unfolding estimate
estimate-Fits c active window deltas limit h =
    let history = newest c.window_size (positives deltas) in
    let (a, b, q, m) = growth_of-covers c history in
    let growth = growth_of c history in
    let share = c.buffer_share window in
    let below : (active + growth + max c.safety_buffer_tokens share < limit)
        × (active + c.hard_arm_remaining_tokens < limit) =
      ground arith in
    let (peak, reserve) = below in
    record {
      last = omega arith;
      least = omega arith;
      upper_quarter = omega arith;
      middle = omega arith;
      reserve = reserve;
    }

token_option-count : (o : Option ℤ) (a : ℕ) → token_option false o ≡ ok (some a) → o ≡ some (pos a)
unfolding token_option token_count
token_option-count none a h = absurd (ground arith)
token_option-count (some (pos n)) a h = ground arith
token_option-count (some (negsuc n)) a h = absurd (ground arith)

token_option-positive :
    (o : Option ℤ) (a : ℕ) → token_option true o ≡ ok (some a) → (o ≡ some (pos a)) × (0 < a)
unfolding token_option token_count
token_option-positive none a h = absurd (ground arith)
token_option-positive (some (pos n)) a h = (ground arith, ground arith)
token_option-positive (some (negsuc n)) a h = absurd (ground arith)

estimate_of-Fits :
    (c : Settled) (active window : Option ℕ) (deltas : List ℕ) (limit : Option ℕ) (r : Prediction)
    → estimate_of c active window deltas limit ≡ some r
    → r.decision ≡ safe
    → (a w n : ℕ) × (active ≡ some a)
      × (window ≡ some w)
      × (limit ≡ some n)
      × Fits c a n
          (max c.safety_buffer_tokens (c.buffer_share w))
          (newest c.window_size (positives deltas))
estimate_of-Fits c (some a) (some w) deltas (some n) r e h =
    let same_result : estimate c a w deltas n ≡ r = ground arith in
    (
      a,
      w,
      n,
      refl,
      refl,
      refl,
      estimate-Fits c a w deltas n
          (subst (λ (y : Prediction). y.decision ≡ safe) (sym same_result) h),
    )
estimate_of-Fits c (some a) (some w) deltas none r e h = absurd (ground arith)
estimate_of-Fits c (some a) none deltas limit r e h = absurd (ground arith)
estimate_of-Fits c none window deltas limit r e h = absurd (ground arith)

-- A prediction that returns "safe" was made of an observed thread, window and limit, and the limit
-- has room for the last growth of the history that it looks at, for the configured least growth, for
-- the upper quartile and for five quarters of the median of that history, each with the larger of
-- the two safety buffers, the configured tokens and the share of the window; and more than the
-- configured reserve remains.
pub predict-Fits :
    (c : Settled) (active window : Option ℤ) (deltas : List ℤ) (limit : Limit) (r : Prediction)
    → predict c active window deltas limit ≡ ok (some r)
    → r.decision ≡ safe
    → (a w n buffer : ℕ) × (ds : List ℕ) × (active ≡ some (pos a))
      × (window ≡ some (pos w))
      × (0 < w)
      × (limit.tokens ≡ some n)
      × (token_list deltas ≡ ok ds)
      × (c.safety_buffer_tokens ≤ buffer)
      × (c.buffer_share w ≤ buffer)
      × Fits c a n buffer (newest c.window_size (positives ds))
unfolding predict
predict-Fits c active window deltas limit r h is_safe =
    let (a, counted, h1) = >>=-eq-ok (token_option false active) _ h in
    let (w, seen, h2) = >>=-eq-ok (token_option true window) _ h1 in
    let (_, h3) = raise_if-eq-ok (not (positive_limit limit.tokens)) value_error _ h2 in
    let (ds, listed, h4) = >>=-eq-ok (token_list deltas) _ h3 in
    let (x, y, n, has_active, has_window, has_limit, fits) =
      estimate_of-Fits c a w ds limit.tokens r (ground arith) is_safe in
    let (is_window, has_tokens) = token_option-positive window y (seen ∙ ap ok has_window) in
    (
      x,
      y,
      n,
      max c.safety_buffer_tokens (c.buffer_share y),
      ds,
      token_option-count active x (counted ∙ ap ok has_active),
      is_window,
      has_tokens,
      has_limit,
      listed,
      omega arith,
      omega arith,
      fits,
    )
