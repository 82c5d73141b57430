-- ===== src/Owned/Written.antt =====
-- What a write changes of a run's routes and inputs.
use context_rollover_guard.Owned.Files.{source, transaction, intent, accepted}
use context_rollover_guard.Owned.Kept.{find-cons, install-files, install-HasText, install-Grows}
use context_rollover_guard.Rollover.Effects.{Fate}
use context_rollover_guard.Owned.Resumable.{Kept}
use context_rollover_guard.Owned.Walk.{numbers}
use context_rollover_guard.StateStore.Codec.{Codec}
use context_rollover_guard.Owned.Files.{
  install, part_code, Name, Part, Files, find, same_name, completed, reconciled, input, route,
  returns,
}
use context_rollover_guard.Prelude.{
  ℕ, ◌≡◌, refl, sym, ap, ◌∙◌, subst, inl, inr, false, none, some, ◌∷◌, arith, ◌==◌,
}
use context_rollover_guard.Json.{Json}

pub find-other :
    (k : Codec) (fate : Fate) (n m : Name) (v : Json) (fs : Files)
    → same_name n m ≡ false
    → find m (install k fate n v fs).1 ≡ find m fs
unfolding find
find-other k fate n m v fs other = elim (install-files k fate n v fs) [
  | inl stays ↦ ap (find m) stays
  | inr (added, absent) ↦ ap (find m) added ∙ ground arith
]

pub install-Kept :
    (k : Codec) (fate : Fate) (i : ℕ) (part : Part) (v : Json) (fs : Files)
    → (part_code part == 2) ≡ false
    → Kept fs (install k fate (input i part) v fs).1
unfolding same_name
install-Kept k fate i part v fs other = record {
  grows = install-Grows k fate (input i part) v fs;
  routes = λ n. find-other k fate (input i part) (input n route) v fs (ground arith);
}

pub Kept-trans : {a b c : Files} → Kept a b → Kept b c → Kept a c
Kept-trans x y = record {
  grows = λ n v h. y.grows n v (x.grows n v h);
  routes = λ n. y.routes n ∙ x.routes n;
}

pub placed-other :
    (i : ℕ) (part : Part) (v : Json) (fs : Files)
    → (part_code part == 0) ≡ false
    → numbers ((input i part, v) ∷ fs) ≡ numbers fs
unfolding numbers
placed-other i source v fs h = absurd (ground arith)
placed-other i transaction v fs h = refl
placed-other i route v fs h = refl
placed-other i intent v fs h = refl
placed-other i accepted v fs h = refl
placed-other i completed v fs h = refl
placed-other i reconciled v fs h = refl

-- The inputs of a run: a write for an input that is there adds none.
pub numbers-install :
    (k : Codec) (fate : Fate) (i : ℕ) (part : Part) (v : Json) (fs : Files)
    → (part_code part == 0) ≡ false
    → numbers (install k fate (input i part) v fs).1 ≡ numbers fs
numbers-install k fate i part v fs other = elim (install-files k fate (input i part) v fs) [
  | inl stays ↦ ap numbers stays
  | inr (added, absent) ↦ ap numbers added ∙ placed-other i part v fs other
]

-- A new record is the value itself.
pub install-new :
    (k : Codec) (fate : Fate) (n : Name) (v : Json) (fs fs' : Files)
    → find n fs ≡ none
    → install k fate n v fs ≡ (returns tt, fs')
    → find n fs' ≡ some v
install-new k fate n v fs fs' absent h =
    let (w, there, same_text) = install-HasText k fate n v fs fs' h in
    elim (install-files k fate n v fs) [
      | inl stays ↦ let same_files : fs ≡ fs' = sym stays ∙ ap (λ r. r.1) h in absurd (ground arith)
      | inr (added, absent') ↦
          let same_files : fs' ≡ (n, v) ∷ fs = sym (ap (λ r. r.1) h) ∙ added in
          subst (λ x. find n x ≡ some v) (sym same_files) (find-cons n v fs)
    ]
