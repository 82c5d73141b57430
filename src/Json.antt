-- ===== src/Json.antt =====
-- JSON documents, as `json.loads` returns them: the values of Python's dynamic dictionaries.
-- A decimal literal is kept as the fraction that it writes, `n / (d + 1)`.
use context_rollover_guard.Prelude.{
  sym, subst, inr, inl, eq_iff, Bool-cases, arith, ◌≡◌, ◌&&◌, ◌+◌, ◌*◌, ◌==◌, false, suc, true, ℕ,
  String, Bool, Option, none, some, str_eq, if◌then◌else◌,
}
use context_rollover_guard.Prelude.Int.{neg_part, pos, pos_part, ℤ}

mutual
  pub data Json : Type 0 where
    null : Json
    bool : Bool → Json
    int : ℤ → Json
    real : ℤ → ℕ → Json
    str : String → Json
    arr : Items → Json
    obj : Members → Json

  pub data Items : Type 0 where
    nil : Items
    cons : Json → Items → Items

  pub data Members : Type 0 where
    end : Members
    member : String → Json → Members → Members

-- d.get(key)
unfoldable pub get : String → Members → Option Json
get k end = none
get k (member j v m) = if str_eq j k then some v else get k m

-- d[key] = value
unfoldable pub put : String → Json → Members → Members
put k v end = member k v end
put k v (member j w m) =
    let rest = put k v m in if str_eq j k then member j v m else member j w rest

pub get-put : (k : String) (v : Json) (m : Members) → get k (put k v m) ≡ some v
unfolding get put
get-put k v end = ground (arith, eq_iff k k)
get-put k v (member j w m) = elim (Bool-cases (str_eq j k)) [
  | inl hit ↦ ground arith
  | inr miss ↦ ground (arith, get-put k v m)
]

pub get-put_other :
    (j k : String) (v : Json) (m : Members) → str_eq k j ≡ false → get j (put k v m) ≡ get j m
unfolding get put
get-put_other j k v end h = ground arith
get-put_other j k v (member i w m) h = elim (Bool-cases (str_eq i k)) [
  | inl hit ↦
      let same_key : i ≡ k = ground (arith, eq_iff i k) in
      let apart : str_eq i j ≡ false = subst (λ x. str_eq x j ≡ false) (sym same_key) h in
      ground arith
  | inr miss ↦ elim (Bool-cases (str_eq i j)) [
    | inl same_key ↦ ground arith
    | inr other ↦ ground (arith, get-put_other j k v m h)
  ]
]

-- The numbers that Python compares by value: `True == 1`, `1 == 1.0`. A pair (n, d) is n / (d + 1).
abbrev number : Json → Option (ℤ × ℕ)
number (bool true) = some (pos 1, 0)
number (bool false) = some (pos 0, 0)
number (int n) = some (n, 0)
number (real n d) = some (n, d)
number _ = none

same_number : ℤ × ℕ → ℤ × ℕ → Bool
same_number (a, d) (b, e) =
    (pos_part a * suc e + neg_part b * suc d) == (pos_part b * suc d + neg_part a * suc e)

pub size : Members → ℕ
size end = 0
size (member k v m) = suc (size m)

abbrev same_atom : Json → Json → Bool
same_atom a b = elim (number a) [
  | some n ↦ elim (number b) [ some m ↦ same_number n m | none ↦ false ]
  | none ↦ false
]

-- Python's `==`: numbers by value, lists in order, dictionaries (whose keys are distinct) in any
-- order.
unfoldable mutual
  unfolding same_number get size

  pub same : Json → Json → Bool
  same null null = true
  same (str s) (str t) = str_eq s t
  same (arr xs) (arr ys) = same_items xs ys
  same (obj m) (obj n) = size m == size n && included m n
  same a b = same_atom a b

  pub same_items : Items → Items → Bool
  same_items nil nil = true
  same_items (cons x xs) (cons y ys) = same x y && same_items xs ys
  same_items _ _ = false

  pub included : Members → Members → Bool
  included end n = true
  included (member k v m) n = elim (get k n) [ none ↦ false | some w ↦ same v w && included m n ]
