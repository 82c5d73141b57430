-- ===== src/Tests/Retry.antt =====
-- A read that is overloaded once.
use context_rollover_guard.Prelude.{
  ◌≡◌, ◌<◌, refl, ℕ, zero, suc, String, Bool, true, false, some, any, str_eq, arith,
}
use context_rollover_guard.Prelude.Int.{pos}
use context_rollover_guard.Json.{Json, null}
use context_rollover_guard.Retry.{
  Outcome, replied, rpc_error, gives, read_with_backoff, read_methods,
}
use context_rollover_guard.Retry.Bounds.{
  WithinBounds, gives_nothing, is_transient, read_with_backoff-WithinBounds,
  read_with_backoff-first,
}

abbrev overloaded : Json → Bool
overloaded e = true

abbrev answers : ℕ → Outcome String
answers zero = rpc_error null
answers (suc i) = replied "page"

read_with_backoff-WithinBounds_example :
    WithinBounds 1000 5
      (read_with_backoff 1000 "thread/list" overloaded answers (pos 3) (pos 100)).1
    × (gives_nothing (read_with_backoff 1000 "thread/list" overloaded answers (pos 3) (pos 100)).0
        ≡ false)
    × (any (str_eq "thread/list") read_methods ≡ false
        → (read_with_backoff 1000 "thread/list" overloaded answers (pos 3) (pos 100)).1.sent ≡ 0)
read_with_backoff-WithinBounds_example =
    read_with_backoff-WithinBounds 1000 "thread/list" overloaded answers (pos 3) (pos 100)

only_first : (j : ℕ) → j < 1 → is_transient overloaded (answers j) ≡ true
only_first zero h = refl
only_first (suc j) h = absurd (omega arith)

read_with_backoff-first_example :
    ((read_with_backoff 1000 "thread/list" overloaded answers (pos 3) (pos 100)).0
      ≡ gives (some "page"))
    × ((read_with_backoff 1000 "thread/list" overloaded answers (pos 3) (pos 100)).1.sent ≡ 2)
read_with_backoff-first_example =
    read_with_backoff-first 1000 "thread/list" overloaded answers 3 100 1 refl (omega arith)
      (omega arith) (omega arith) (omega arith) only_first refl
