-- ===== src/Owned/Files.antt =====
-- The directory of one owned run (crg/owned_client.py, `record`; crg/durable.py, `immutable_write`),
-- and the calls on it: each returns, raises, or dies with the process. A record is kept as the value
-- that was written.
use context_rollover_guard.Errors.{value_error, os_error, Exc}
use context_rollover_guard.Rollover.Effects.{
  Fate, written, failed, failed_durable, stopped, stopped_durable,
}
use context_rollover_guard.StateStore.Codec.{Codec}
use context_rollover_guard.Prelude.{
  ℕ, Bool, true, false, ◌&&◌, Option, none, some, List, [], ◌∷◌, str_eq, ◌==◌, if◌then◌else◌,
  is_some, Result, ok, err, or_raise,
}
use context_rollover_guard.Json.{Json}

pub data Part : Type 0 where
  source transaction route intent accepted completed reconciled : Part

-- `start-intent.json`, `started.json`, and `input-NNNNNN.json` with its suffixes
pub data Name : Type 0 where
  start_intent started : Name
  input : ℕ → Part → Name

abbrev pub part_code : Part → ℕ
part_code source = 0
part_code transaction = 1
part_code route = 2
part_code intent = 3
part_code accepted = 4
part_code completed = 5
part_code reconciled = 6

unfoldable pub same_name : Name → Name → Bool
same_name start_intent start_intent = true
same_name started started = true
same_name (input i p) (input j q) = (i == j) && (part_code p == part_code q)
same_name _ _ = false

-- The newest record stands first.
abbrev pub Files : Type 0
Files = List (Name × Json)

unfoldable pub find : Name → Files → Option Json
find n [] = none
find n ((m, v) ∷ rest) = let found = find n rest in if same_name m n then some v else found

abbrev pub exists : Name → Files → Bool
exists n fs = is_some (find n fs)

pub data Answer {ℓ} (A : Type ℓ) : Type ℓ where
  returns : A → Answer A
  raises : Exc → Answer A
  stops : Answer A

abbrev pub M {ℓ} : Type 0 → Type ℓ → Type ℓ
M S A = S → Answer A × S

module _ {ℓ} {S : Type 0} {A : Type ℓ} where
  abbrev pub pure : A → M S A
  pure a s = (returns a, s)

  abbrev pub raise : Exc → M S A
  raise e s = (raises e, s)

  abbrev pub lift : Result Exc A → M S A
  lift (ok a) s = (returns a, s)
  lift (err e) s = (raises e, s)

module _ {ℓ κ} {S : Type 0} {A : Type ℓ} {B : Type κ} where
  abbrev pub continue : Answer A → (A → M S B) → M S B
  continue (returns a) f s = f a s
  continue (raises e) f s = (raises e, s)
  continue stops f s = (stops, s)

  infixl 5 ◌>>=◌
  abbrev pub ◌>>=◌ : M S A → (A → M S B) → M S B
  ◌>>=◌ m f s = let (r, s') = m s in continue r f s'

infixl 5 ◌>>◌
abbrev pub ◌>>◌ {ℓ} : {S : Type 0} {B : Type ℓ} → M S (Unit {0}) → M S B → M S B
m >> n = m >>= λ _. n

-- `if test: raise e`
abbrev pub raise_when : {S : Type 0} → Bool → Exc → M S (Unit {0})
raise_when true e s = (raises e, s)
raise_when false e s = (returns tt, s)

-- What a write of its fate leaves: the old files or the new ones.
unfoldable pub outcome : Fate → Files → Files → Answer (Unit {0}) × Files
outcome written old new = (returns tt, new)
outcome failed old new = (raises os_error, old)
outcome failed_durable old new = (raises os_error, new)
outcome stopped old new = (stops, old)
outcome stopped_durable old new = (stops, new)

-- A record that is there must have the same text.
unfoldable pub install : Codec → Fate → Name → Json → M Files (Unit {0})
install k fate n v fs = elim (find n fs) [
  | none ↦ outcome fate fs ((n, v) ∷ fs)
  | some old ↦
      if str_eq (k.print old) (k.print v) then outcome fate fs fs else (raises value_error, fs)
]

-- `json.loads(read_private(…))`
abbrev pub load : Name → Files → Result Exc Json
load n fs = or_raise (find n fs) os_error
