-- ===== src/Retry.antt =====
-- Bounded retries of read requests (crg/retry.py). Durations are whole numbers of the smallest unit
-- of the clock, of which `second` make one second.
pub mod Bounds
use Prim.Native.Nat.{◌^◌}
use context_rollover_guard.Prelude.{
  ℕ, zero, suc, ◌*◌, min, String, str_eq, Bool, true, false, ◌||◌, not, any, Option, none, some,
  List, [], ◌∷◌, leb, ◌==◌, if◌then◌else◌,
}
use context_rollover_guard.Prelude.Int.{ℤ, pos, negsuc}
use context_rollover_guard.Json.{Json}
use context_rollover_guard.Errors.{Exc, value_error}

-- What one request does: it returns, raises RpcError, or raises something else.
pub data Outcome (A : Type 0) : Type 0 where
  replied : A → Outcome A
  rpc_error : Json → Outcome A
  broke : Exc → Outcome A

-- How the whole call ends; a loop that runs out returns None.
pub data Ending (A : Type 0) : Type 0 where
  gives : Option A → Ending A
  rethrows : Json → Ending A
  raises : Exc → Ending A

-- The number of requests so far, and the pauses, the latest first.
pub record Log : Type 0 where
  pub sent : ℕ
  pub slept : List ℕ

abbrev pub read_methods : List String
read_methods = "thread/read" ∷ "thread/list" ∷ "config/read" ∷ "hooks/list" ∷ []

module _ {A : Type 0} (second : ℕ) (retryable : Json → Bool) (reply : ℕ → Outcome A) (attempts : ℕ)
    (delay : ℕ) where
  -- `remaining` is what is left of range(attempts).
  unfoldable pub loop : ℕ → ℕ → Log → Ending A × Log
  loop zero index log = (gives none, log)
  loop (suc remaining) index log =
      let log' = record log { sent = suc log.sent } in
      elim (reply index) [
        | replied a ↦ (gives (some a), log')
        | broke e ↦ (raises e, log')
        | rpc_error e ↦ elim (suc index == attempts || not (retryable e)) [
          | true ↦ (rethrows e, log')
          | false ↦
              loop remaining (suc index)
                (record log' { slept = min (delay * 2 ^ index) (2 * second) ∷ log.slept })
        ]
      ]

abbrev pub no_log : Log
no_log = record { sent = 0; slept = [] }

-- `type(attempts) is not int or not 1 <= attempts <= 5`
abbrev pub allowed_attempts : ℤ → Option ℕ
allowed_attempts (pos n) = if leb 1 n then (if leb n 5 then some n else none) else none
allowed_attempts (negsuc n) = none

abbrev pub allowed_delay : ℕ → ℤ → Option ℕ
allowed_delay second (pos d) = if leb d second then some d else none
allowed_delay second (negsuc d) = none

abbrev pub start_loop :
    {A : Type 0} → ℕ → (Json → Bool) → (ℕ → Outcome A) → Option ℕ → Option ℕ → Ending A × Log
start_loop second retryable reply (some n) (some d) = loop second retryable reply n d n 0 no_log
start_loop second retryable reply _ _ = (raises value_error, no_log)

unfoldable pub read_with_backoff :
    {A : Type 0} → ℕ → String → (Json → Bool) → (ℕ → Outcome A) → ℤ → ℤ → Ending A × Log
read_with_backoff second method retryable reply attempts delay =
    if any (str_eq method) read_methods
    then start_loop second retryable reply (allowed_attempts attempts) (allowed_delay second delay)
    else (raises value_error, no_log)
