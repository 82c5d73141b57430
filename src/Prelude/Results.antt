-- ===== src/Prelude/Results.antt =====
-- A Python call that returns or raises: `ok` or `err` with the exception's reason.
use mathlib.Core.Path.{◌≡◌, refl}
use context_rollover_guard.Prelude.Tests.{if◌then◌else◌}
use mathlib.Core.Logic.{◌⊎◌, inl, inr}
use mathlib.Core.Bool.{Bool, true, false}
use mathlib.Core.Option.{Option, none, some}

pub data Result {ℓ} (E : Type 0) (A : Type ℓ) : Type ℓ where
  err : E → Result E A
  ok : A → Result E A

infixl 5 ◌>>=◌ ◌>>◌
-- The next statement runs where the one before it did not raise.
abbrev pub ◌>>=◌ {κ μ} :
    {E : Type 0} {A : Type κ} {B : Type μ} → Result E A → (A → Result E B) → Result E B
err reason >>= next = err reason
ok value >>= next = next value

abbrev pub ◌>>◌ {μ} : {E : Type 0} {B : Type μ} → Result E (Unit {0}) → Result E B → Result E B
err reason >> rest = err reason
ok done >> rest = rest

-- `if test: raise e`
abbrev pub raise_if : {E : Type 0} → Bool → E → Result E (Unit {0})
raise_if true e = err e
raise_if false e = ok tt

abbrev pub or_raise {ℓ} : {E : Type 0} {A : Type ℓ} → Option A → E → Result E A
or_raise none e = err e
or_raise (some a) e = ok a

pub or_raise-eq-ok {ℓ} :
    {E : Type 0} {A : Type ℓ} (o : Option A) (e : E) {a : A} → or_raise o e ≡ ok a → o ≡ some a
or_raise-eq-ok none e h = cc
or_raise-eq-ok (some x) e h = cc

-- A bind that returns has a first part that returns.
pub >>=-eq-ok {κ μ} :
    {E : Type 0} {A : Type κ} {B : Type μ} (r : Result E A) (next : A → Result E B) {end : B}
    → (r >>= next) ≡ ok end
    → (value : A) × (r ≡ ok value) × (next value ≡ ok end)
>>=-eq-ok (err reason) next returned = cc
>>=-eq-ok (ok value) next returned = (value, refl, returned)

-- What follows a check that returns: the test was false.
pub raise_if-eq-ok {ℓ} :
    {E : Type 0} {A : Type ℓ} (test : Bool) (e : E) (rest : Result E A) {end : A}
    → (raise_if test e >> rest) ≡ ok end
    → (test ≡ false) × (rest ≡ ok end)
raise_if-eq-ok true e rest h = cc
raise_if-eq-ok false e rest h = (refl, h)

pub >>-eq-ok {ℓ} :
    {E : Type 0} {A : Type ℓ} (r : Result E (Unit {0})) (rest : Result E A) {end : A}
    → (r >> rest) ≡ ok end
    → (r ≡ ok tt) × (rest ≡ ok end)
>>-eq-ok (err reason) rest h = cc
>>-eq-ok (ok done) rest h = (refl, h)

-- A conditional that returns, by its test.
pub if-eq-ok {ℓ} :
    {E : Type 0} {A : Type ℓ} (test : Bool) (x y : Result E A) {end : A}
    → (if test then x else y) ≡ ok end
    → ((test ≡ true) × (x ≡ ok end)) ⊎ ((test ≡ false) × (y ≡ ok end))
if-eq-ok true x y h = inl (refl, h)
if-eq-ok false x y h = inr (refl, h)

pub Result-cases {ℓ} :
    {E : Type 0} {A : Type ℓ} (r : Result E A) → ((a : A) × (r ≡ ok a)) ⊎ ((e : E) × (r ≡ err e))
Result-cases (ok a) = inl (a, refl)
Result-cases (err e) = inr (e, refl)

-- A predicate of a case distinction holds if it holds of every case, under the case's equation.
module _ {ℓ κ} {B : Type κ} (P : B → Type ℓ) where
  pub on_bool : (b : Bool) (x y : B) → (b ≡ true → P x) → (b ≡ false → P y) → P (if b then x else y)
  on_bool true x y f g = f refl
  on_bool false x y f g = g refl

  pub on_option {μ} :
      {A : Type μ} (o : Option A) (n : B) (s : A → B)
      → (o ≡ none → P n)
      → ((a : A) → o ≡ some a → P (s a))
      → P (elim o [ none ↦ n | some a ↦ s a ])
  on_option none n s f g = f refl
  on_option (some a) n s f g = g a refl

  pub on_result {μ} :
      {E : Type 0} {A : Type μ} (r : Result E A) (s : A → B) (n : E → B)
      → ((a : A) → r ≡ ok a → P (s a))
      → ((e : E) → r ≡ err e → P (n e))
      → P (elim r [ ok a ↦ s a | err e ↦ n e ])
  on_result (ok a) s n f g = f a refl
  on_result (err e) s n f g = g e refl
