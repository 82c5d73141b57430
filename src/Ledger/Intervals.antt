-- ===== src/Ledger/Intervals.antt =====
-- The usage of an interval that is cut in two.
use context_rollover_guard.Errors.{value_error}
use context_rollover_guard.Prelude.{
  or_raise-eq-ok, raise_if-eq-ok, ℕ, ◌+◌, ◌≤◌, String, ◌≡◌, refl, sym, ap, ◌∙◌, subst, Bool, true,
  false, ◌&&◌, ◌||◌, not, Option, none, some, List, [], ◌∷◌, arith, str_eq, if◌then◌else◌, length,
  ok, or_raise, >>=-eq-ok,
}
use context_rollover_guard.Json.{Json}
use context_rollover_guard.Ledger.Legacy.{
  Clock, Row, Tables, Usage, is_in, totals_in, known, sum, summed, summary, usage, count_of,
  observed_at, observed_scope,
}

-- The known tokens, with 0 where none are known.
abbrev pub total : Usage → ℕ
total u = elim (u.known_total_tokens) [ none ↦ 0 | some n ↦ n ]

-- The numbers of one usage are the sums of those of two others.
pub record Sum (whole first second : Usage) : Type 0 where
  pub samples : whole.sample_count ≡ first.sample_count + second.sample_count
  pub known : whole.known_samples ≡ first.known_samples + second.known_samples
  pub unknown : whole.unknown_samples ≡ first.unknown_samples + second.unknown_samples
  pub tokens : total whole ≡ total first + total second

record Splits (xs ys zs : List (Option ℕ)) : Type 0 where
  length_eq : length xs ≡ length ys + length zs
  known_eq : length (known xs) ≡ length (known ys) + length (known zs)
  sum_eq : sum (known xs) ≡ sum (known ys) + sum (known zs)

known_bound : (xs : List (Option ℕ)) → length (known xs) ≤ length xs
unfolding known
known_bound [] = omega arith
known_bound (none ∷ xs) = omega (arith, known_bound xs)
known_bound (some n ∷ xs) = omega (arith, known_bound xs)

by_known : (ns : List ℕ) → (elim (summed ns) [ none ↦ 0 | some n ↦ n ]) ≡ sum ns
unfolding sum
by_known [] = refl
by_known (n ∷ ns) = refl

total_summed : (xs : List (Option ℕ)) → total (summary xs) ≡ sum (known xs)
unfolding summary known sum
total_summed xs = by_known (known xs)

Splits-left :
    (o : Option ℕ) (xs ys zs : List (Option ℕ)) → Splits xs ys zs → Splits (o ∷ xs) (o ∷ ys) zs
unfolding known sum
Splits-left none xs ys zs s = record {
  length_eq = omega (arith, s.length_eq);
  known_eq = s.known_eq;
  sum_eq = s.sum_eq;
}
Splits-left (some n) xs ys zs s = record {
  length_eq = omega (arith, s.length_eq);
  known_eq = omega (arith, s.known_eq);
  sum_eq = omega (arith, s.sum_eq);
}

Splits-right :
    (o : Option ℕ) (xs ys zs : List (Option ℕ)) → Splits xs ys zs → Splits (o ∷ xs) ys (o ∷ zs)
unfolding known sum
Splits-right none xs ys zs s = record {
  length_eq = omega (arith, s.length_eq);
  known_eq = s.known_eq;
  sum_eq = s.sum_eq;
}
Splits-right (some n) xs ys zs s = record {
  length_eq = omega (arith, s.length_eq);
  known_eq = omega (arith, s.known_eq);
  sum_eq = omega (arith, s.sum_eq);
}

Splits-if :
    (w f s : Bool) (o : Option ℕ) (xs ys zs : List (Option ℕ))
    → Splits xs ys zs
    → w ≡ (f || s)
    → (f && s) ≡ false
    → Splits (if w then o ∷ xs else xs) (if f then o ∷ ys else ys) (if s then o ∷ zs else zs)
Splits-if true true false o xs ys zs h a b = Splits-left o xs ys zs h
Splits-if true false true o xs ys zs h a b = Splits-right o xs ys zs h
Splits-if false false false o xs ys zs h a b = h
Splits-if true true true o xs ys zs h a b = cc
Splits-if true false false o xs ys zs h a b = cc
Splits-if false true s o xs ys zs h a b = cc
Splits-if false false true o xs ys zs h a b = cc

-- A point is in the whole interval as it is in one of its two parts.
cut :
    (here p q r : Bool)
    → (p ≡ true → q ≡ true)
    → (q ≡ true → r ≡ true)
    → ((here && not p && r) ≡ ((here && not p && q) || (here && not q && r)))
      × (((here && not p && q) && (here && not q && r)) ≡ false)
cut false p q r f g = (refl, refl)
cut true false false r f g = (ground arith, refl)
cut true false true true f g = (refl, refl)
cut true true true true f g = (refl, refl)
cut true false true false f g = absurd (ground (arith, g refl))
cut true true true false f g = absurd (ground (arith, g refl))
cut true true false r f g = absurd (ground (arith, f refl))

module _ (c : Clock)
    (trans : (a b d : String)
      → c.precedes a b ≡ true
      → c.precedes b d ≡ true
      → c.precedes a d ≡ true)
    (scope from mid to : String) (first : c.precedes from mid ≡ true)
    (second : c.precedes mid to ≡ true) where
  totals_in-Splits :
      (rows : List Row)
      → Splits
          (totals_in c scope from to rows)
          (totals_in c scope from mid rows)
          (totals_in c scope mid to rows)
  unfolding totals_in known sum
  totals_in-Splits [] = record { length_eq = omega arith; known_eq = refl; sum_eq = refl }
  totals_in-Splits (r ∷ rows) =
      let at = observed_at r.columns in
      let (whole, apart) =
        cut (str_eq (observed_scope r.columns) scope) (c.precedes at from) (c.precedes at mid)
          (c.precedes at to) (λ p. trans at from mid p first) (λ q. trans at mid to q second) in
      Splits-if (is_in c scope from to r) (is_in c scope from mid r) (is_in c scope mid to r)
        (count_of "total_tokens" r.columns) _ _ _ (totals_in-Splits rows) whole apart

summary-Sum :
    (xs ys zs : List (Option ℕ)) → Splits xs ys zs → Sum (summary xs) (summary ys) (summary zs)
unfolding summary
summary-Sum xs ys zs s = record {
  samples = s.length_eq;
  known = s.known_eq;
  unknown = omega (arith, s.length_eq, s.known_eq, known_bound xs, known_bound ys, known_bound zs);
  tokens = omega (arith, total_summed xs, total_summed ys, total_summed zs, s.sum_eq);
}

usage-inversion :
    (c : Clock) (scope : String) (start stop : Option Json) (t : Tables) (u : Usage)
    → usage c scope start stop t ≡ ok u
    → (from to : String) × (c.timestamp start ≡ some from)
      × (c.timestamp stop ≡ some to)
      × (c.precedes from to ≡ true)
      × (summary (totals_in c scope from to t.rows) ≡ u)
unfolding usage
usage-inversion c scope start stop t u h =
    let (from, a, h1) = >>=-eq-ok (or_raise (c.timestamp start) value_error) _ h in
    let (to, b, h2) = >>=-eq-ok (or_raise (c.timestamp stop) value_error) _ h1 in
    let (valid, h3) = raise_if-eq-ok (not (c.precedes from to)) _ _ h2 in
    (from, to, or_raise-eq-ok _ _ a, or_raise-eq-ok _ _ b, ground arith, ground arith)

Sum-eq : (w w' f f' s s' : Usage) → w ≡ w' → f ≡ f' → s ≡ s' → Sum w f s → Sum w' f' s'
Sum-eq w w' f f' s s' a b d h =
    subst (λ u. Sum u f' s') a (subst (λ u. Sum w u s') b (subst (λ u. Sum w f u) d h))

some-eq : (o : Option String) (x y : String) → o ≡ some x → o ≡ some y → x ≡ y
some-eq o x y a b = ground arith

-- Where the order of instants is transitive, the usage of an interval is the sum of the usages of
-- the two intervals into which an instant in it cuts it: each event counts in exactly one of them.
pub usage-Sum :
    (c : Clock)
    (trans : (a b d : String)
      → c.precedes a b ≡ true
      → c.precedes b d ≡ true
      → c.precedes a d ≡ true)
    (scope : String) (start mid stop : Option Json) (t : Tables) (whole first second : Usage)
    → usage c scope start stop t ≡ ok whole
    → usage c scope start mid t ≡ ok first
    → usage c scope mid stop t ≡ ok second
    → Sum whole first second
usage-Sum c trans scope start mid stop t whole first second w f s =
    let (from, to, w1, w2, w3, w4) = usage-inversion c scope start stop t whole w in
    let (from', cut_at, f1, f2, f3, f4) = usage-inversion c scope start mid t first f in
    let (cut_at', to', s1, s2, s3, s4) = usage-inversion c scope mid stop t second s in
    let same_from = some-eq _ from' from f1 w1 in
    let same_cut = some-eq _ cut_at' cut_at s1 f2 in
    let same_to = some-eq _ to' to s2 w2 in
    let before = subst (λ x. c.precedes x cut_at ≡ true) same_from f3 in
    let after =
      subst (λ x. c.precedes cut_at x ≡ true) same_to
        (subst (λ x. c.precedes x to' ≡ true) same_cut s3) in
    let split = totals_in-Splits c trans scope from cut_at to before after t.rows in
    let first_usage = ap (λ x. summary (totals_in c scope x cut_at t.rows)) (sym same_from) ∙ f4 in
    let second_usage =
      ap (λ x. summary (totals_in c scope cut_at x t.rows)) (sym same_to)
      ∙ ap (λ x. summary (totals_in c scope x to' t.rows)) (sym same_cut)
      ∙ s4 in
    Sum-eq _ whole _ first _ second w4 first_usage second_usage (summary-Sum _ _ _ split)
