-- ===== src/Numbers.antt =====
-- The checks of numbers that the analytical modules share (crg/events.py `number`, with integers;
-- crg/ledger.py `nonnegative`; crg/predictor.py `token_count`). `none` is Python's None. That a
-- value is an int, and no bool or float, is its type here.
use context_rollover_guard.Prelude.{
  false, ◌==◌, true, Bool, ℕ, Option, none, some, leb, if◌then◌else◌, Result, ok, err,
}
use context_rollover_guard.Prelude.Int.{ℤ, pos, negsuc}

pub data NumberError : Type 0 where
  invalid_number : NumberError

-- 2 ** 63 - 1
abbrev pub largest : ℕ
largest = 9223372036854775807

-- number(value, integer=True)
unfoldable pub number : Option ℤ → Result NumberError (Option ℕ)
number none = ok none
number (some (pos n)) = if leb n largest then ok (some n) else err invalid_number
number (some (negsuc n)) = err invalid_number

-- `==` of integers or None
abbrev pub same_count : Option ℤ → Option ℤ → Bool
same_count none none = true
same_count (some (pos m)) (some (pos n)) = m == n
same_count (some (negsuc m)) (some (negsuc n)) = m == n
same_count _ _ = false
