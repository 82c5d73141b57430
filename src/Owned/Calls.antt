-- ===== src/Owned/Calls.antt =====
-- What holds through a sequence of calls, and how a sequence that returns went.
use context_rollover_guard.Errors.{Exc}
use context_rollover_guard.Owned.Files.{continue, lift, M, Answer, ◌>>=◌, returns, raises, stops}
use context_rollover_guard.Prelude.{◌≡◌, refl, ap, arith, Result, ok, err}

module _ {ℓ} {S : Type 0} {A B : Type 0} (P : S → Type ℓ) where
  continue_keeps :
      (r : Answer A) (next : A → M S B) (s : S)
      → ((a : A) (s : S) → P s → P (next a s).1)
      → P s
      → P (continue r next s).1
  continue_keeps (returns a) next s keep p = keep a s p
  continue_keeps (raises e) next s keep p = p
  continue_keeps stops next s keep p = p

  pub bind_keeps :
      (m : M S A) (next : A → M S B)
      → ((s : S) → P s → P (m s).1)
      → ((a : A) (s : S) → P s → P (next a s).1)
      → (s : S) → P s
      → P ((m >>= next) s).1
  bind_keeps m next first keep s p = continue_keeps (m s).0 next (m s).1 keep (first s p)

pub lift_keeps {ℓ} :
    {S A : Type 0} (P : S → Type ℓ) (r : Result Exc A) (s : S) → P s → P (lift {S = S} r s).1
lift_keeps P (ok a) s p = p
lift_keeps P (err e) s p = p

module _ {S : Type 0} {A B : Type 0} where
  continue-eq-returns :
      (r : Answer A) (next : A → M S B) (s s' : S) (b : B)
      → continue r next s ≡ (returns b, s')
      → (a : A) × (r ≡ returns a) × (next a s ≡ (returns b, s'))
  continue-eq-returns (returns a) next s s' b h = (a, refl, h)
  continue-eq-returns (raises e) next s s' b h = absurd (ground arith)
  continue-eq-returns stops next s s' b h = absurd (ground arith)

  -- A sequence that returns has a first call that returns.
  pub >>=-eq-returns :
      (m : M S A) (next : A → M S B) (s : S) {b : B} {s' : S}
      → (m >>= next) s ≡ (returns b, s')
      → (a : A) × (middle : S) × (m s ≡ (returns a, middle)) × (next a middle ≡ (returns b, s'))
  >>=-eq-returns m next s {b} {s'} h =
      let (a, first, rest) = continue-eq-returns (m s).0 next (m s).1 s' b h in
      (a, (m s).1, ap (λ r. (r, (m s).1)) first, rest)

pub lift-eq-returns :
    {S A : Type 0} (r : Result Exc A) (s : S) {a : A} {s' : S}
    → lift {S = S} r s ≡ (returns a, s')
    → (r ≡ ok a) × (s ≡ s')
lift-eq-returns (ok x) s h = (ground arith, ground arith)
lift-eq-returns (err e) s h = absurd (ground arith)
