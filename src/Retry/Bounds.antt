-- ===== src/Retry/Bounds.antt =====
-- A retried read ends after at most five requests, with the first answer that is final.
use Prim.Native.Nat.{◌^◌}
use context_rollover_guard.Prelude.{
  ◌≡◌, refl, subst, sym, ap, ◌∙◌, ltb, ℕ, zero, suc, ◌+◌, ◌*◌, ◌≤◌, ◌<◌, min, String, str_eq, Bool,
  true, false, any, Option, none, some, ◌∷◌, All, arith, inl, inr, Bool-cases,
}
use context_rollover_guard.Prelude.Int.{ℤ, pos, negsuc}
use context_rollover_guard.Json.{Json}
use context_rollover_guard.Retry.{
  Outcome, replied, rpc_error, broke, Ending, gives, rethrows, raises, Log, loop, read_with_backoff,
  no_log, read_methods, allowed_attempts, allowed_delay, start_loop,
}

abbrev pub gives_nothing : {A : Type 0} → Ending A → Bool
gives_nothing (gives none) = true
gives_nothing _ = false

-- At most `n` requests, and no pause above two seconds.
pub record WithinBounds (second n : ℕ) (log : Log) : Type 0 where
  pub requests : log.sent ≤ n
  pub pauses : All (λ (p : ℕ). p ≤ 2 * second) log.slept

WithinBounds-weaken :
    (second m n : ℕ) (log : Log) → WithinBounds second m log → m ≤ n → WithinBounds second n log
WithinBounds-weaken second m n log b h = record {
  requests = omega (arith, b.requests);
  pauses = b.pauses;
}

module _ {A : Type 0} (second : ℕ) (retryable : Json → Bool) (reply : ℕ → Outcome A) (attempts : ℕ)
    (delay : ℕ) where
  loop-WithinBounds :
      (remaining index : ℕ) (log : Log)
      → WithinBounds second index log
      → WithinBounds second
          (index + remaining)
          (loop second retryable reply attempts delay remaining index log).1
  unfolding loop
  loop-WithinBounds zero index log b = ground (arith, b.pauses)
  loop-WithinBounds (suc remaining) index log b =
      let next : Log = record {
        sent = suc log.sent;
        slept = min (delay * 2 ^ index) (2 * second) ∷ log.slept;
      } in
      let here : WithinBounds second (suc index) next = record {
        requests = omega (arith, b.requests);
        pauses = (omega arith, b.pauses);
      } in
      let r = loop-WithinBounds remaining (suc index) next here in
      ground (arith, r, WithinBounds-weaken second (suc index) (index + suc remaining) next here)

  loop-gives :
      (remaining index : ℕ) (log : Log)
      → index + suc remaining ≡ attempts
      → gives_nothing (loop second retryable reply attempts delay (suc remaining) index log).0
        ≡ false
  unfolding loop
  loop-gives zero index log h = ground arith
  loop-gives (suc remaining) index log h = ground (
    arith,
    loop-gives remaining (suc index)
        (record { sent = suc log.sent; slept = min (delay * 2 ^ index) (2 * second) ∷ log.slept })
        (omega arith),
  )

start_loop-WithinBounds :
    {A : Type 0} (second : ℕ) (retryable : Json → Bool) (reply : ℕ → Outcome A) (n d : Option ℕ)
    → ((k : ℕ) → n ≡ some k → (1 ≤ k) × (k ≤ 5))
    → WithinBounds second 5 (start_loop second retryable reply n d).1
      × (gives_nothing (start_loop second retryable reply n d).0 ≡ false)
start_loop-WithinBounds second retryable reply none d h =
    (record { requests = omega arith; pauses = tt }, refl)
start_loop-WithinBounds second retryable reply (some k) none h =
    (record { requests = omega arith; pauses = tt }, refl)
start_loop-WithinBounds second retryable reply (some zero) (some d) h =
    absurd (ground (arith, h 0 refl))
start_loop-WithinBounds second retryable reply (some (suc k)) (some d) h =
    let b = h (suc k) refl in
    let start : WithinBounds second 0 no_log = record { requests = omega arith; pauses = tt } in
    (
      WithinBounds-weaken second (0 + suc k) 5 _
          (loop-WithinBounds second retryable reply (suc k) d (suc k) 0 no_log start) (omega arith),
      loop-gives second retryable reply (suc k) d k 0 no_log (omega arith),
    )

allowed_attempts-bounds :
    (attempts : ℤ) (k : ℕ) → allowed_attempts attempts ≡ some k → (1 ≤ k) × (k ≤ 5)
allowed_attempts-bounds (pos n) k h = ground arith
allowed_attempts-bounds (negsuc n) k h = cc

-- Whatever the client answers, a call sends at most five requests, pauses at most two seconds at a
-- time, never ends without a reply or an exception, and sends nothing for a method that is no read.
pub read_with_backoff-WithinBounds :
    {A : Type 0} (second : ℕ) (method : String) (retryable : Json → Bool) (reply : ℕ → Outcome A)
    (attempts delay : ℤ)
    → WithinBounds second 5 (read_with_backoff second method retryable reply attempts delay).1
      × (gives_nothing (read_with_backoff second method retryable reply attempts delay).0 ≡ false)
      × (any (str_eq method) read_methods ≡ false
          → (read_with_backoff second method retryable reply attempts delay).1.sent ≡ 0)
unfolding read_with_backoff
read_with_backoff-WithinBounds {A} second method retryable reply attempts delay =
    let b =
      start_loop-WithinBounds second retryable reply (allowed_attempts attempts)
        (allowed_delay second delay) (allowed_attempts-bounds attempts) in
    elim (Bool-cases (any (str_eq method) read_methods)) [
      | inl reads ↦ rw reads (b.0, b.1, λ e. cc)
      | inr other ↦ rw other (record { requests = omega arith; pauses = tt }, refl, λ e. refl)
    ]

abbrev pub is_transient : {A : Type 0} → (Json → Bool) → Outcome A → Bool
is_transient retryable (rpc_error e) = retryable e
is_transient retryable _ = false

abbrev pub ending_of : {A : Type 0} → Outcome A → Ending A
ending_of (replied a) = gives (some a)
ending_of (rpc_error e) = rethrows e
ending_of (broke e) = raises e

module _ {A : Type 0} (second : ℕ) (retryable : Json → Bool) (reply : ℕ → Outcome A) (attempts : ℕ)
    (delay : ℕ) where
  loop-last :
      (remaining index : ℕ) (log : Log)
      → is_transient retryable (reply index) ≡ false
      → ((loop second retryable reply attempts delay (suc remaining) index log).0
          ≡ ending_of (reply index))
        × ((loop second retryable reply attempts delay (suc remaining) index log).1.sent
            ≡ suc log.sent)
  unfolding loop
  loop-last remaining index log f = ground arith

  loop-first :
      (remaining index k : ℕ) (log : Log)
      → index + remaining ≡ attempts
      → index ≤ k
      → k < attempts
      → ((j : ℕ) → index ≤ j → j < k → is_transient retryable (reply j) ≡ true)
      → is_transient retryable (reply k) ≡ false
      → ((loop second retryable reply attempts delay remaining index log).0 ≡ ending_of (reply k))
        × ((loop second retryable reply attempts delay remaining index log).1.sent + index
            ≡ log.sent + suc k)
  unfolding loop
  loop-first zero index k log h a b t f = ground arith
  loop-first (suc remaining) index k log h a b t f = elim (Bool-cases (ltb index k)) [
    | inl before ↦
        let now = t index (omega arith) (ground arith) in
        let r =
          loop-first remaining (suc index) k
            (record {
              sent = suc log.sent;
              slept = min (delay * 2 ^ index) (2 * second) ∷ log.slept;
            })
            (omega arith) (ground arith) b (λ j l m. t j (omega arith) m) f in
        ground (arith, now, r)
    | inr at_k ↦
        let e : index ≡ k = ground arith in
        let now = subst (λ j. is_transient retryable (reply j) ≡ false) (sym e) f in
        let last = loop-last remaining index log now in
        (last.0 ∙ ap (λ j. ending_of (reply j)) e, omega (arith, last.1, e))
  ]

-- A read with allowed attempts and delay ends with the first answer that is no transient error, if
-- one comes within the attempts, and sends no request after it.
pub read_with_backoff-first :
    {A : Type 0} (second : ℕ) (method : String) (retryable : Json → Bool) (reply : ℕ → Outcome A)
    (n d k : ℕ)
    → any (str_eq method) read_methods ≡ true
    → 1 ≤ n
    → n ≤ 5
    → d ≤ second
    → k < n
    → ((j : ℕ) → j < k → is_transient retryable (reply j) ≡ true)
    → is_transient retryable (reply k) ≡ false
    → ((read_with_backoff second method retryable reply (pos n) (pos d)).0 ≡ ending_of (reply k))
      × ((read_with_backoff second method retryable reply (pos n) (pos d)).1.sent ≡ suc k)
unfolding read_with_backoff
read_with_backoff-first second method retryable reply n d k reads low high short b t f =
    let r =
      loop-first second retryable reply n d n 0 k no_log (omega arith) (omega arith) b
        (λ j l m. t j m) f in
    ground (arith, r)
