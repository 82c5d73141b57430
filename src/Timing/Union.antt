-- ===== src/Timing/Union.antt =====
-- `union_ms` is the measure of the union: the number of milliseconds that some interval covers.
use context_rollover_guard.Prelude.{
  ltb→lt, >>=-eq-ok, inr, inl, ◌∙◌, Bool-cases, ℕ, zero, suc, ◌+◌, ◌-◌, ◌≤◌, ◌<◌, max, min, ◌≡◌,
  refl, Bool, true, false, ◌&&◌, ◌||◌, Option, none, some, List, [], ◌∷◌, arith, ltb, leb, any, All,
  if◌then◌else◌, ok,
}
use context_rollover_guard.Timing.{
  ℤ, Interval, before, insert, sorted, sweep, union_ms, check_interval, check_intervals,
}

-- How many numbers below `n` pass a test.
unfoldable pub count_below : ℕ → (ℕ → Bool) → ℕ
count_below zero p = 0
count_below (suc n) p = (if p n then 1 else 0) + count_below n p

abbrev pub covers : ℕ → Interval → Bool
covers t (start, end) = leb start t && ltb t end

-- Some interval holds the millisecond from `t` to `t + 1`.
abbrev pub covered : List Interval → ℕ → Bool
covered is t = any (covers t) is

-- The starts of a list are at least `s`, in order.
abbrev Ascending : ℕ → List Interval → Type 0
Ascending s [] = Unit {0}
Ascending s ((a, b) ∷ is) = (s ≤ a) × (a ≤ b) × Ascending a is

Ascending-weaken : (s t : ℕ) (is : List Interval) → s ≤ t → Ascending t is → Ascending s is
Ascending-weaken s t [] h a = tt
Ascending-weaken s t ((x, y) ∷ is) h a = (omega arith, a.1, a.2)

covered-start : (s : ℕ) (is : List Interval) (t : ℕ) → Ascending s is → covered is t ≡ true → s ≤ t
covered-start s [] t a h = cc
covered-start s ((x, y) ∷ is) t a h = ground (arith, covered-start x is t a.2)

-- What the sweep still has to count.
abbrev rest_of : ℕ → List Interval → ℕ → Bool
rest_of last is t = leb last t && covered is t

abbrev bit : Bool → ℕ
bit b = if b then 1 else 0

point_apart :
    (t last s e : ℕ) (b : Bool)
    → e ≤ last
    → bit (leb last t && (covers t (s, e) || b)) ≡ bit (leb (max last e) t && b)
point_apart t last s e b h = rw (max-last h) (ground arith)
  where
    max-last : e ≤ last → max last e ≡ last
    max-last h = omega arith

point_joined :
    (t last s e : ℕ) (b : Bool)
    → last < e
    → s ≤ e
    → (b ≡ true → s ≤ t)
    → bit (leb last t && (covers t (s, e) || b)) + (min t e - min t (max s last))
      ≡ bit (leb e t && b) + (min (suc t) e - min (suc t) (max s last))
point_joined t last s e true h k c = ground (arith, c refl)
point_joined t last s e false h k c = ground arith

-- An interval that ends before the sweep counts nothing.
one_apart :
    (n last s e : ℕ) (is : List Interval)
    → e ≤ last
    → count_below n (rest_of last ((s, e) ∷ is)) ≡ count_below n (rest_of (max last e) is)
unfolding count_below
one_apart zero last s e is h = refl
one_apart (suc n) last s e is h =
    omega (arith, point_apart n last s e (covered is n) h, one_apart n last s e is h)

-- Any other counts from the sweep, or from its own start, to its end.
one_joined :
    (n last s e : ℕ) (is : List Interval)
    → last < e
    → s ≤ e
    → Ascending s is
    → count_below n (rest_of last ((s, e) ∷ is))
      ≡ min n e - min n (max s last) + count_below n (rest_of e is)
unfolding count_below
one_joined zero last s e is h k a = omega arith
one_joined (suc n) last s e is h k a = omega (
  arith,
  point_joined n last s e (covered is n) h k (covered-start s is n a),
  one_joined n last s e is h k a,
)

one_interval :
    (n last s e : ℕ) (is : List Interval)
    → s ≤ e
    → e ≤ n
    → Ascending s is
    → count_below n (rest_of last ((s, e) ∷ is))
      ≡ (if ltb last e then e - max s last else 0) + count_below n (rest_of (max last e) is)
one_interval n last s e is h k a = elim (Bool-cases (ltb last e)) [
  | inr q ↦ rw q (omega (arith, one_apart n last s e is (ground arith)))
  | inl q ↦
      rw (q, max-left last e (ltb→lt last e q))
        (omega (arith, one_joined n last s e is (ltb→lt last e q) h a, ltb→lt last e q))
]
  where
    max-left : (a b : ℕ) → a < b → max a b ≡ b
    max-left a b h = omega arith

count_below-none : (n last : ℕ) → count_below n (rest_of last []) ≡ 0
unfolding count_below
count_below-none zero last = refl
count_below-none (suc n) last = ground (arith, count_below-none n last)

abbrev pub Within : ℕ → List Interval → Type 0
Within n is = All (λ (i : Interval). i.1 ≤ n) is

sweep-rest :
    (n total last : ℕ) (is : List Interval)
    → Within n is
    → Ascending 0 is
    → sweep total (some last) is ≡ total + count_below n (rest_of last is)
unfolding sweep
sweep-rest n total last [] b a = omega (arith, count_below-none n last)
sweep-rest n total last ((s, e) ∷ is) b a = ground (
  arith,
  one_interval n last s e is a.1 b.0 a.2,
  sweep-rest n (total + (if ltb last e then e - max s last else 0)) (max last e) is b.1
      (Ascending-weaken 0 s is (omega arith) a.2),
)

sweep-none :
    (n : ℕ) (is : List Interval)
    → Within n is
    → Ascending 0 is
    → sweep 0 none is ≡ sweep 0 (some 0) is
unfolding sweep
sweep-none n [] b a = refl
sweep-none n ((s, e) ∷ is) b a = ground arith

-- Sorting changes neither what is covered nor the bound, and puts the starts in order.
covered-insert :
    (i : Interval) (is : List Interval) (t : ℕ) → covered (insert i is) t ≡ covered (i ∷ is) t
unfolding insert
covered-insert i [] t = refl
covered-insert i (j ∷ js) t = ground (arith, covered-insert i js t)

covered-sorted : (is : List Interval) (t : ℕ) → covered (sorted is) t ≡ covered is t
unfolding sorted
covered-sorted [] t = refl
covered-sorted (i ∷ is) t = covered-insert i (sorted is) t ∙ ground (arith, covered-sorted is t)

Within-insert :
    (n : ℕ) (i : Interval) (is : List Interval) → i.1 ≤ n → Within n is → Within n (insert i is)
unfolding insert
Within-insert n i [] h b = (h, tt)
Within-insert n i (j ∷ js) h b = ground (arith, Within-insert n i js h b.1)

Within-sorted : (n : ℕ) (is : List Interval) → Within n is → Within n (sorted is)
unfolding sorted
Within-sorted n [] b = tt
Within-sorted n (i ∷ is) b = Within-insert n i (sorted is) b.0 (Within-sorted n is b.1)

Ascending-insert :
    (s : ℕ) (i : Interval) (is : List Interval)
    → s ≤ i.0
    → i.0 ≤ i.1
    → Ascending s is
    → Ascending s (insert i is)
unfolding insert
Ascending-insert s i [] h k a = (h, k, tt)
Ascending-insert s (a, b) ((c, d) ∷ js) h k (l, m, r) = elim (Bool-cases (before (a, b) (c, d))) [
  | inl e ↦ rw e (h, k, (ground arith, m, r))
  | inr e ↦ rw e (l, m, Ascending-insert c (a, b) js (ground arith) k r)
]

abbrev pub Forward : List Interval → Type 0
Forward is = All (λ (i : Interval). i.0 ≤ i.1) is

Ascending-sorted : (is : List Interval) → Forward is → Ascending 0 (sorted is)
unfolding sorted
Ascending-sorted [] f = tt
Ascending-sorted (i ∷ is) f =
    Ascending-insert 0 i (sorted is) (omega arith) f.0 (Ascending-sorted is f.1)

count_below-cong :
    (n : ℕ) (p q : ℕ → Bool) → ((t : ℕ) → p t ≡ q t) → count_below n p ≡ count_below n q
unfolding count_below
count_below-cong zero p q h = refl
count_below-cong (suc n) p q h = ground (arith, h n, count_below-cong n p q h)

sweep-sorted :
    (n : ℕ) (is : List Interval)
    → Within n is
    → Forward is
    → sweep 0 none (sorted is) ≡ count_below n (covered is)
sweep-sorted n is b f =
    sweep-none n (sorted is) (Within-sorted n is b) (Ascending-sorted is f)
    ∙ sweep-rest n 0 0 (sorted is) (Within-sorted n is b) (Ascending-sorted is f)
    ∙ ground (
      arith,
      count_below-cong n (rest_of 0 (sorted is)) (covered is)
          (λ t. ground (arith, covered-sorted is t)),
    )

check_interval-forward :
    (r : Option ℤ × Option ℤ) (i : Interval) → check_interval r ≡ ok i → i.0 ≤ i.1
unfolding check_interval
check_interval-forward (a, b) i h = ground arith

-- What passes the checks runs forward.
check_intervals-Forward :
    (raw : List (Option ℤ × Option ℤ)) (is : List Interval)
    → check_intervals raw ≡ ok is
    → Forward is
unfolding check_intervals
check_intervals-Forward [] is h = ground arith
check_intervals-Forward (r ∷ raw) is h =
    let (i, e, k) = >>=-eq-ok (check_interval r) _ h in
    let (rest, f, l) = >>=-eq-ok (check_intervals raw) _ k in
    ground (arith, check_interval-forward r i e, check_intervals-Forward raw rest f)

-- Where it returns, `union_ms` is the number of milliseconds below any bound of the ends that some
-- interval covers: overlaps are counted once and gaps not at all, in whatever order they are given.
pub union_ms-measure :
    (raw : List (Option ℤ × Option ℤ)) (is : List Interval) (n : ℕ)
    → check_intervals raw ≡ ok is
    → Within n is
    → union_ms raw ≡ ok (count_below n (covered is))
unfolding union_ms
union_ms-measure raw is n h b =
    ground (arith, sweep-sorted n is b (check_intervals-Forward raw is h))
