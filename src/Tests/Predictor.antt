-- ===== src/Tests/Predictor.antt =====
-- A window with room for another turn, and one without.
use context_rollover_guard.Predictor.{
  safe, within_limit, Limit, median, Prediction, Settled, predict, estimate, token_option,
  token_count, token_list, newest, positives, growth_of, last_of, percentile75, sorted, insert,
  resolve_limit, limit_of,
}
use context_rollover_guard.Predictor.Caution.{Fits, predict-Fits}
use context_rollover_guard.Prelude.{
  ℕ, ◌+◌, ◌*◌, ◌/◌, ◌≤◌, ◌<◌, ◌≡◌, refl, Option, none, some, List, [], ◌∷◌, ok,
}
use context_rollover_guard.Prelude.Int.{ℤ, pos}

abbrev plain : Settled
plain = record {
  window_size = 8;
  min_growth_tokens = 8000;
  safety_buffer_tokens = 8000;
  hard_arm_remaining_tokens = 12000;
  derived = λ window. window * 9 / 10;
  conservative = λ window. window * 8 / 10;
  buffer_share = λ window. (window * 3 + 99) / 100;
}

abbrev limit : Limit
limit = record { tokens = some 160000; source = "conservative_estimate"; scope = "unknown" }

abbrev deltas : List ℤ
deltas = pos 4000 ∷ pos 0 ∷ pos 9000 ∷ []

limit_is_conservative : resolve_limit plain (some (pos 200000)) none none "unknown" ≡ ok limit
unfolding resolve_limit limit_of token_option token_count
limit_is_conservative = refl

quartile_is_interpolated : percentile75 (9 ∷ 1 ∷ 5 ∷ 2 ∷ []) ≡ 24
unfolding percentile75 sorted insert
quartile_is_interpolated = refl

abbrev roomy : Prediction
roomy = record {
  decision = safe;
  reason = within_limit;
  predicted_growth = 9000;
  safety_buffer = 8000;
  headroom = pos 130000;
  predicted_peak = 47000;
  risk_score = (17000, 130000);
}

prediction_is_safe :
    predict plain (some (pos 30000)) (some (pos 200000)) deltas limit ≡ ok (some roomy)
unfolding predict estimate token_option token_count token_list growth_of percentile75 median sorted
    insert last_of positives
prediction_is_safe = refl

predict-Fits_example :
    (a w n buffer : ℕ) × (ds : List ℕ) × (◌≡◌ {A = Option ℤ} (some (pos 30000)) (some (pos a)))
    × (◌≡◌ {A = Option ℤ} (some (pos 200000)) (some (pos w)))
    × (0 < w)
    × (limit.tokens ≡ some n)
    × (token_list deltas ≡ ok ds)
    × (plain.safety_buffer_tokens ≤ buffer)
    × (plain.buffer_share w ≤ buffer)
    × Fits plain a n buffer (newest plain.window_size (positives ds))
predict-Fits_example =
    predict-Fits plain (some (pos 30000)) (some (pos 200000)) deltas limit roomy prediction_is_safe
      refl
