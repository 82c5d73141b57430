-- ===== src/Predictor.antt =====
-- The estimate whether the next turn fits the context (crg/predictor.py). Counts are naturals once
-- `token_count` has accepted them. Percentiles and medians of counts are exact fractions, as Python's
-- floats are below 2^50; the products of the window with a configured fraction are parameters.
pub mod Caution
use context_rollover_guard.Errors.{Exc, value_error}
use context_rollover_guard.Prelude.{
  ℕ, zero, suc, ◌+◌, ◌-◌, ◌*◌, ◌/◌, ◌%◌, ◌≤◌, ◌<◌, min, max, String, str_append, ◌≡◌, refl, sym, ap,
  ◌∙◌, subst, ◌≢◌, ◌↔◌, ◌⊎◌, inl, inr, Bool, true, false, ◌&&◌, ◌||◌, not, Option, none, some, List,
  [], ◌∷◌, ◌++◌, map, arith, str_eq, eq_iff, ltb, leb, ◌==◌, if◌then◌else◌, is_some, length,
  get_elem?, take, drop, any, all, All, Result, ok, err, ◌>>=◌, ◌>>◌, raise_if, or_raise, >>=-eq-ok,
  Result-cases, Bool-cases, Option-cases,
}
use context_rollover_guard.Prelude.Int.{
  ℤ, pos, negsuc, sub_ℕ, ltb_ℤ, ◌+ℤ◌, ◌-ℤ◌, ◌≤ℤ◌, pos_part, neg_part,
}

pub record Settled : Type 0 where
  pub window_size : ℕ
  pub min_growth_tokens : ℕ
  pub safety_buffer_tokens : ℕ
  pub hard_arm_remaining_tokens : ℕ
  -- math.floor(window * derived_limit_percent), math.floor(window * conservative_limit_percent) and
  -- math.ceil(window * safety_buffer_percent)
  pub derived : ℕ → ℕ
  pub conservative : ℕ → ℕ
  pub buffer_share : ℕ → ℕ

-- token_count
unfoldable pub token_count : Bool → ℤ → Result Exc ℕ
token_count positive (negsuc n) = err value_error
token_count positive (pos n) = if positive && n == 0 then err value_error else ok n

unfoldable pub token_option : Bool → Option ℤ → Result Exc (Option ℕ)
token_option positive none = ok none
token_option positive (some n) = do count ← token_count positive n; ok (some count)

unfoldable pub token_list : List ℤ → Result Exc (List ℕ)
token_list [] = ok []
token_list (n ∷ ns) = do count ← token_count false n; rest ← token_list ns; ok (count ∷ rest)

pub record Limit : Type 0 where
  pub tokens : Option ℕ
  pub source : String
  pub scope : String

abbrev capped : Option ℕ → ℕ → ℕ
capped none bound = bound
capped (some n) bound = min n bound

abbrev known_scope : String → Bool
known_scope scope = any (str_eq scope) ("total" ∷ "body_after_prefix" ∷ "unknown" ∷ [])

abbrev total_source : Option ℕ → String
total_source none = "derived_window_fraction"
total_source (some n) = "configured_capped_by_derived"

abbrev conservative_limit : Settled → ℕ → Option ℕ → String → Limit
conservative_limit c window configured scope = record {
  tokens = some (capped configured (c.conservative window));
  source = "conservative_estimate";
  scope = scope;
}

abbrev body_limit : Settled → ℕ → Option ℕ → Option ℕ → String → Limit
body_limit c window (some configured) (some prefix) scope = record {
  tokens = some (min (configured + prefix) (c.derived window));
  source = "body_limit_plus_observed_prefix_capped";
  scope = scope;
}
body_limit c window configured prefix scope = conservative_limit c window configured scope

unfoldable pub limit_of : Settled → Option ℕ → Option ℕ → Option ℕ → String → Limit
limit_of c none configured prefix scope = record {
  tokens = none;
  source = "window_unobservable";
  scope = scope;
}
limit_of c (some window) configured prefix scope =
    if str_eq scope "total"
    then record {
      tokens = some (capped configured (c.derived window));
      source = total_source configured;
      scope = scope;
    }
    else if str_eq scope "body_after_prefix"
    then body_limit c window configured prefix scope
    else conservative_limit c window configured scope

unfoldable pub resolve_limit : Settled → Option ℤ → Option ℤ → Option ℤ → String → Result Exc Limit
resolve_limit c window configured prefix scope = do
  w ← token_option true window
  n ← token_option true configured
  p ← token_option false prefix
  raise_if (not (known_scope scope)) value_error
  ok (limit_of c w n p scope)

unfoldable pub insert : ℕ → List ℕ → List ℕ
insert n [] = n ∷ []
insert n (m ∷ ms) = let rest = insert n ms in if leb n m then n ∷ m ∷ ms else m ∷ rest

unfoldable pub sorted : List ℕ → List ℕ
sorted [] = []
sorted (n ∷ ns) = insert n (sorted ns)

abbrev nth : ℕ → List ℕ → ℕ
nth i ns = elim (get_elem? ns i) [ none ↦ 0 | some n ↦ n ]

-- percentile75, in quarters
unfoldable pub percentile75 : List ℕ → ℕ
percentile75 [] = 0
percentile75 (n ∷ ns) =
    let values = sorted (n ∷ ns) in
    let last = length ns in
    let low = nth (3 * last / 4) values in
    let high = nth ((3 * last + 3) / 4) values in 4 * low + (high - low) * (3 * last % 4)

-- median, in halves
unfoldable pub median : List ℕ → ℕ
median ns = let values = sorted ns in nth ((length ns - 1) / 2) values + nth (length ns / 2) values

unfoldable pub last_of : List ℕ → ℕ
last_of [] = 0
last_of (n ∷ []) = n
last_of (n ∷ m ∷ ms) = last_of (m ∷ ms)

-- `[d for d in deltas if d > 0]`
unfoldable pub positives : List ℕ → List ℕ
positives [] = []
positives (n ∷ ns) = let rest = positives ns in if n == 0 then rest else n ∷ rest

-- `[-size:]`, of a positive size
abbrev pub newest : ℕ → List ℕ → List ℕ
newest size ns = drop (length ns - size) ns

-- math.ceil(max(…)): in eighths, rounded up
unfoldable pub growth_of : Settled → List ℕ → ℕ
growth_of c history =
    (max (2 * percentile75 history)
        (max (8 * last_of history) (max (5 * median history) (8 * c.min_growth_tokens)))
      + 7)
    / 8

pub data Decision : Type 0 where
  safe arm : Decision

pub data Reason : Type 0 where
  next_turn_over_limit hard_headroom within_limit : Reason

-- The fields of the result that are computed; the risk score is a fraction of two counts.
pub record Prediction : Type 0 where
  pub decision : Decision
  pub reason : Reason
  pub predicted_growth : ℕ
  pub safety_buffer : ℕ
  pub headroom : ℤ
  pub predicted_peak : ℕ
  pub risk_score : ℕ × ℕ

-- `limit.tokens - active <= c.hard_arm_remaining_tokens`
abbrev is_hard : Settled → ℕ → ℕ → Bool
is_hard c active limit = leb limit (active + c.hard_arm_remaining_tokens)

-- `min(1.0, (growth + buffer) / max(1, headroom))`
abbrev risk_of : ℕ → ℕ → ℕ × ℕ
risk_of need room = (min need (max 1 room), max 1 room)

unfoldable pub estimate : Settled → ℕ → ℕ → List ℕ → ℕ → Prediction
estimate c active window deltas limit =
    let growth = growth_of c (newest c.window_size (positives deltas)) in
    let buffer = max c.safety_buffer_tokens (c.buffer_share window) in
    let peak = active + growth + buffer in
    let over = leb limit peak in
    let hard = is_hard c active limit in
    record {
      decision = if over || hard then arm else safe;
      reason = if over then next_turn_over_limit else if hard then hard_headroom else within_limit;
      predicted_growth = growth;
      safety_buffer = buffer;
      headroom = sub_ℕ limit active;
      predicted_peak = peak;
      risk_score = risk_of (growth + buffer) (limit - active);
    }

-- Without an active count, a window or a limit the decision is "UNKNOWN", which is `none` here.
abbrev pub estimate_of : Settled → Option ℕ → Option ℕ → List ℕ → Option ℕ → Option Prediction
estimate_of c (some active) (some window) deltas (some limit) =
    some (estimate c active window deltas limit)
estimate_of c _ _ deltas _ = none

abbrev pub positive_limit : Option ℕ → Bool
positive_limit none = true
positive_limit (some n) = not (n == 0)

unfoldable pub predict :
    Settled → Option ℤ → Option ℤ → List ℤ → Limit → Result Exc (Option Prediction)
predict c active window deltas limit = do
  a ← token_option false active
  w ← token_option true window
  raise_if (not (positive_limit limit.tokens)) value_error
  ds ← token_list deltas
  ok (estimate_of c a w ds limit.tokens)
