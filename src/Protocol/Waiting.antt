-- ===== src/Protocol/Waiting.antt =====
-- The requests that wait, and those that have ended (crg/appserver.py, `AppServerClient`).
use context_rollover_guard.Prelude.Int.{pos}
use context_rollover_guard.Prelude.{
  on_bool, ℕ, ◌≤◌, ◌<◌, ◌≡◌, refl, sym, subst, ◌≢◌, inl, inr, true, false, none, some, List, [],
  ◌∷◌, arith, ◌==◌, All, Bool-cases,
}
use context_rollover_guard.Json.{Json, int, get, same}
use context_rollover_guard.Prelude.{
  ℕ, ◌≤◌, ◌<◌, ◌≡◌, refl, sym, subst, ◌≢◌, inl, inr, true, false, none, some, List, [], ◌∷◌, arith,
  ◌==◌, All, Bool-cases,
}
use context_rollover_guard.Json.{Json, int, get, same}
use context_rollover_guard.Protocol.Schema.{has}
use context_rollover_guard.Protocol.Client.{
  Fate, replied, unavailable, Reader, failed, Client, found, without, mark, fate_of,
}

-- A response carries the request's number and no method.
unfoldable pub Carries : ℕ → Fate → Type 0
Carries i unavailable = Unit
Carries i (replied m) =
    (id : Json) × (get "id" m ≡ some id) × (same (int (pos i)) id ≡ true) × (has "method" m ≡ false)

-- A waiting request has a number that was given out, and no response yet.
abbrev pub Waits : Client → ℕ → Type 0
Waits c i = (i ≤ c.counter) × (fate_of i c.fates ≡ none)

abbrev pub Known : ℕ → ℕ × Fate → Type 0
Known counter (i, f) = (i ≤ counter) × Carries i f

-- After a failure nothing waits.
abbrev pub Silent : Reader → List ℕ → Type 0
Silent failed pending = pending ≡ []
Silent _ pending = Unit

pub record Inv (c : Client) : Type 0 where
  pub waiting : All (Waits c) c.pending
  pub known : All (Known c.counter) c.fates
  pub silent : Silent c.reader c.pending

pub All-map {ℓ κ μ} :
    {A : Type ℓ} {P : A → Type κ} {Q : A → Type μ}
    → ((a : A) → P a → Q a)
    → (xs : List A) → All P xs
    → All Q xs
All-map f [] h = tt
All-map f (x ∷ xs) (p, h) = (f x p, All-map f xs h)

pub fate_of_new :
    (i : ℕ) (fates : List (ℕ × Fate)) (n : ℕ) → All (Known n) fates → n < i → fate_of i fates ≡ none
unfolding fate_of
fate_of_new i [] n h above = refl
fate_of_new i ((j, f) ∷ fates) n ((b, k), h) above = ground (arith, fate_of_new i fates n h above)

pub All-without :
    {P : ℕ → Type 0} (Q : ℕ → Type 0) (i : ℕ)
    → ((j : ℕ) → P j → j ≢ i → Q j)
    → (js : List ℕ) → All P js
    → All Q (without i js)
unfolding without
All-without Q i f [] h = tt
All-without Q i f (j ∷ js) (p, h) =
    on_bool (All Q) (j == i) _ _ (λ same_one. All-without Q i f js h)
      (λ other. (f j p (ground arith), All-without Q i f js h))

pub found_waits :
    (id : Json) (P : ℕ → Type 0) (js : List ℕ) (i : ℕ)
    → All P js
    → found id js ≡ some i
    → P i × (same (int (pos i)) id ≡ true)
unfolding found
found_waits id P [] i h f = cc
found_waits id P (j ∷ js) i (p, h) f = elim (Bool-cases (same (int (pos j)) id)) [
  | inl hit ↦
      let same_one : j ≡ i = ground arith in
      subst (λ k. P k × (same (int (pos k)) id ≡ true)) same_one (p, hit)
  | inr miss ↦ found_waits id P js i h (ground arith)
]

pub mark-Known :
    (n : ℕ) (is : List ℕ) (fates : List (ℕ × Fate))
    → All (λ i. i ≤ n) is
    → All (Known n) fates
    → All (Known n) (mark is fates)
unfolding mark Carries
mark-Known n [] fates b h = h
mark-Known n (i ∷ is) fates (p, b) h = ((p, tt), mark-Known n is fates b h)

pub fate_of_other :
    (j i : ℕ) (f : Fate) (fates : List (ℕ × Fate))
    → j ≢ i
    → fate_of i ((j, f) ∷ fates) ≡ fate_of i fates
unfolding fate_of
fate_of_other j i f fates ne = ground arith

pub fate_of-mark :
    (is : List ℕ) (fates : List (ℕ × Fate)) (i : ℕ) (f : Fate)
    → All (λ j. fate_of j fates ≡ none) is
    → fate_of i fates ≡ some f
    → fate_of i (mark is fates) ≡ some f
unfolding mark fate_of
fate_of-mark [] fates i f b h = h
fate_of-mark (j ∷ is) fates i f (p, b) h =
    subst (λ o. o ≡ some f) (sym (fate_of_other j i unavailable (mark is fates) (λ e. cc)))
      (fate_of-mark is fates i f b h)
