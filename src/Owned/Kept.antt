-- ===== src/Owned/Kept.antt =====
-- A record of an owned run stays as it was first written.
use context_rollover_guard.Errors.{value_error}
use context_rollover_guard.Rollover.Effects.{
  written, failed, failed_durable, stopped, stopped_durable,
}
use context_rollover_guard.Owned.Files.{Answer, returns, raises}
use context_rollover_guard.Rollover.Effects.{Fate}
use context_rollover_guard.StateStore.Codec.{Codec}
use context_rollover_guard.Owned.Files.{
  Name, outcome, Files, Part, same_name, install, find, source, completed, route, intent, accepted,
  transaction, reconciled, input, start_intent, started, part_code,
}
use context_rollover_guard.Prelude.{
  on_bool, on_option, ℕ, ◌≡◌, refl, sym, ap, ◌∙◌, subst, ◌⊎◌, inl, inr, true, none, some, ◌∷◌,
  arith, str_eq, eq_iff, ◌==◌, if◌then◌else◌, Bool-cases,
}
use context_rollover_guard.Json.{Json}

abbrev part_of : ℕ → Part
part_of n =
    if n == 0
    then source
    else if n == 1
    then transaction
    else if n == 2
    then route
    else if n == 3
    then intent
    else if n == 4
    then accepted
    else if n == 5
    then completed
    else reconciled

part_of-part_code : (p : Part) → part_of (part_code p) ≡ p
part_of-part_code source = refl
part_of-part_code transaction = refl
part_of-part_code route = refl
part_of-part_code intent = refl
part_of-part_code accepted = refl
part_of-part_code completed = refl
part_of-part_code reconciled = refl

part_code-injective : (p q : Part) → part_code p ≡ part_code q → p ≡ q
part_code-injective p q e = sym (part_of-part_code p) ∙ (ap part_of e ∙ part_of-part_code q)

pub same_name-eq : (m n : Name) → same_name m n ≡ true → m ≡ n
unfolding same_name
same_name-eq start_intent start_intent h = refl
same_name-eq started started h = refl
same_name-eq (input i p) (input j q) h =
    let same_part : p ≡ q = part_code-injective p q (ground arith) in
    let same_number : i ≡ j = ground arith in cc
same_name-eq start_intent started h = cc
same_name-eq start_intent (input j q) h = cc
same_name-eq started start_intent h = cc
same_name-eq started (input j q) h = cc
same_name-eq (input i p) start_intent h = cc
same_name-eq (input i p) started h = cc

-- Every record of the first directory is one of the second.
abbrev pub Grows : Files → Files → Type 0
Grows fs fs' = (n : Name) (v : Json) → find n fs ≡ some v → find n fs' ≡ some v

pub Grows-cons : (n : Name) (v : Json) (fs : Files) → find n fs ≡ none → Grows fs ((n, v) ∷ fs)
unfolding find
Grows-cons n v fs absent m w h = elim (Bool-cases (same_name n m)) [
  | inl hit ↦ let same_one : n ≡ m = same_name-eq n m hit in absurd (ground arith)
  | inr miss ↦ ground arith
]

abbrev WriteResult : Name → Json → Files → Answer (Unit {0}) × Files → Type 0
WriteResult n v fs result = (result.1 ≡ fs) ⊎ ((result.1 ≡ (n, v) ∷ fs) × (find n fs ≡ none))

outcome-WriteResult :
    (fate : Fate) (n : Name) (v : Json) (fs : Files)
    → find n fs ≡ none
    → WriteResult n v fs (outcome fate fs ((n, v) ∷ fs))
unfolding outcome
outcome-WriteResult written n v fs h = inr (refl, h)
outcome-WriteResult failed n v fs h = inl refl
outcome-WriteResult failed_durable n v fs h = inr (refl, h)
outcome-WriteResult stopped n v fs h = inl refl
outcome-WriteResult stopped_durable n v fs h = inr (refl, h)

outcome-same : (fate : Fate) (fs : Files) → (outcome fate fs fs).1 ≡ fs
unfolding outcome
outcome-same written fs = refl
outcome-same failed fs = refl
outcome-same failed_durable fs = refl
outcome-same stopped fs = refl
outcome-same stopped_durable fs = refl

-- A write of any fate leaves the files, or adds the one record that was not there.
pub install-files :
    (k : Codec) (fate : Fate) (n : Name) (v : Json) (fs : Files)
    → WriteResult n v fs (install k fate n v fs)
unfolding install
install-files k fate n v fs =
    on_option (WriteResult n v fs) (find n fs) (outcome fate fs ((n, v) ∷ fs))
      (λ old.
        if str_eq (k.print old) (k.print v) then outcome fate fs fs else (raises value_error, fs))
      (outcome-WriteResult fate n v fs)
      (λ old there.
        on_bool (WriteResult n v fs) (str_eq (k.print old) (k.print v)) (outcome fate fs fs)
          (raises value_error, fs) (λ same_one. inl (outcome-same fate fs)) (λ other. inl refl))

pub install-Grows :
    (k : Codec) (fate : Fate) (n : Name) (v : Json) (fs : Files)
    → Grows fs (install k fate n v fs).1
install-Grows k fate n v fs = elim (install-files k fate n v fs) [
  | inl stays ↦ subst (Grows fs) (sym stays) (λ m w h. h)
  | inr (added, absent) ↦ subst (Grows fs) (sym added) (Grows-cons n v fs absent)
]

-- A write that returns leaves a record with the text that was to be written.
abbrev pub HasText : Codec → Name → Json → Files → Type 0
HasText k n v fs = (w : Json) × (find n fs ≡ some w) × (k.print w ≡ k.print v)

outcome-returns :
    (fate : Fate) (old new fs : Files) → outcome fate old new ≡ (returns tt, fs) → new ≡ fs
unfolding outcome
outcome-returns written old new fs h = cc
outcome-returns failed old new fs h = ground arith
outcome-returns failed_durable old new fs h = ground arith
outcome-returns stopped old new fs h = ground arith
outcome-returns stopped_durable old new fs h = ground arith

same_name_refl : (n : Name) → same_name n n ≡ true
unfolding same_name
same_name_refl start_intent = refl
same_name_refl started = refl
same_name_refl (input i p) = ground arith

pub find-cons : (n : Name) (v : Json) (fs : Files) → find n ((n, v) ∷ fs) ≡ some v
unfolding find
find-cons n v fs = ground (arith, same_name_refl n)

abbrev Leaves : Codec → Name → Json → Answer (Unit {0}) × Files → Type 0
Leaves k n v result = (fs' : Files) → result ≡ (returns tt, fs') → HasText k n v fs'

pub install-HasText :
    (k : Codec) (fate : Fate) (n : Name) (v : Json) (fs : Files)
    → Leaves k n v (install k fate n v fs)
unfolding install
install-HasText k fate n v fs =
    on_option (Leaves k n v) (find n fs) (outcome fate fs ((n, v) ∷ fs))
      (λ old.
        if str_eq (k.print old) (k.print v) then outcome fate fs fs else (raises value_error, fs))
      (λ absent fs' h. (
        v,
        subst (λ x. find n x ≡ some v) (outcome-returns fate fs ((n, v) ∷ fs) fs' h)
            (find-cons n v fs),
        refl,
      ))
      (λ old there.
        on_bool (Leaves k n v) (str_eq (k.print old) (k.print v)) (outcome fate fs fs)
          (raises value_error, fs)
          (λ same_one fs' h. (
            old,
            subst (λ x. find n x ≡ some old) (outcome-returns fate fs fs fs' h) there,
            ground (arith, eq_iff (k.print old) (k.print v)),
          ))
          (λ other fs' h. absurd (ground arith)))
