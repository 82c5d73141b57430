-- ===== src/Features/Snapshot.antt =====
-- A snapshot that `features` makes is one that `validate_snapshot` accepts.
use context_rollover_guard.Numbers.{largest}
use context_rollover_guard.Prelude.{
  if-eq-ok, or_raise-eq-ok, raise_if-eq-ok, >>-eq-ok, ℕ, ◌≤◌, String, ◌≡◌, refl, subst, inl, inr,
  true, false, ◌||◌, not, Option, none, some, List, arith, Result, ok, or_raise, >>=-eq-ok,
  Result-cases, Option-cases,
}
use context_rollover_guard.Json.{Json, Members, null, bool, int, real, str, arr, obj, get}
use context_rollover_guard.Prelude.Int.{pos}
use context_rollover_guard.Events.{within, in_texts, each_key, or_null, check_integer}
use context_rollover_guard.Features.{
  value_error, Exc, Tools, is_true, task_name, policy_keys, intent_keys, kinds, risks, has_all,
  has_exactly, all_filled, all_short, is_str, text_list, is_inert, or_null_value, is_true,
  task_name, counts, snapshot_of, confirmed, features, check_version, check_hash, check_policy,
  check_values, validate_snapshot,
}

in_texts-again :
    (names : List String) (o : Option Json) (s : String)
    → in_texts names o ≡ ok s
    → in_texts names (some (str s)) ≡ ok s
unfolding in_texts
in_texts-again names (some (str t)) s h = ground arith
in_texts-again names none s h = cc
in_texts-again names (some (arr xs)) s h = cc
in_texts-again names (some (obj m)) s h = cc
in_texts-again names (some null) s h = cc
in_texts-again names (some (bool b)) s h = cc
in_texts-again names (some (int n)) s h = cc
in_texts-again names (some (real n d)) s h = cc

or_null-value :
    (check : Option Json → Result Exc (Unit {0})) (o : Option Json)
    → or_null check o ≡ ok tt
    → or_null check (some (or_null_value o)) ≡ ok tt
unfolding or_null
or_null-value check none h = refl
or_null-value check (some v) h = h

check_integer-small : (n : ℕ) → n ≤ largest → or_null check_integer (some (int (pos n))) ≡ ok tt
unfolding or_null check_integer
check_integer-small n h = ground arith

check_hash-identity :
    (t : Tools) (v : Json)
    → t.is_hash (t.identity v) ≡ true
    → check_hash t (some (str (t.identity v))) ≡ ok tt
unfolding check_hash
check_hash-identity t v h = ground arith

-- The values of a snapshot, by the facts that `confirmed` has checked.
snapshot_of-values :
    (t : Tools) (intent policy : Members) (at : Json) (task kind risk : String)
    (files acceptance : ℕ) (instant : String)
    → ((v : Json) → t.is_hash (t.identity v) ≡ true)
    → each_key (or_null check_integer) counts intent ≡ ok tt
    → files ≤ largest
    → acceptance ≤ largest
    → in_texts kinds (some (str kind)) ≡ ok kind
    → in_texts risks (some (str risk)) ≡ ok risk
    → check_policy t (some (obj policy)) ≡ ok tt
    → t.instants.instant (str instant) ≡ some instant
    → check_values t (snapshot_of t intent policy at task kind risk files acceptance instant)
      ≡ ok tt
unfolding check_values snapshot_of get check_version each_key
snapshot_of-values t intent policy at task kind risk files acceptance instant hashed c f a k r p i =
    let (c1, rest) = >>-eq-ok (or_null check_integer (get "input_bytes" intent)) _ c in
    let (c2, rest') = >>-eq-ok (or_null check_integer (get "headroom_tokens" intent)) _ rest in
    let (c3, done) = >>-eq-ok (or_null check_integer (get "retry_count" intent)) _ rest' in
    ground (
      arith,
      check_hash-identity t (str task) (hashed (str task)),
      check_hash-identity t (obj intent) (hashed (obj intent)),
      check_integer-small files f,
      check_integer-small acceptance a,
      or_null-value check_integer (get "input_bytes" intent) c1,
      or_null-value check_integer (get "headroom_tokens" intent) c2,
      or_null-value check_integer (get "retry_count" intent) c3,
      k,
      r,
      p,
      i,
    )

snapshot_of-keys :
    (t : Tools) (intent policy : Members) (at : Json) (task kind risk : String)
    (files acceptance : ℕ) (instant : String)
    → check_values t (snapshot_of t intent policy at task kind risk files acceptance instant)
      ≡ ok tt
    → validate_snapshot t (snapshot_of t intent policy at task kind risk files acceptance instant)
      ≡ ok tt
unfolding validate_snapshot snapshot_of within has_all get
snapshot_of-keys t intent policy at task kind risk files acceptance instant h = h

policy-checked :
    (t : Tools) (policy : Members)
    → (not (has_exactly policy_keys policy) || not (all_filled policy)) ≡ false
    → not (is_str "single_agent" (get "execution_mode" policy)) ≡ false
    → all_short t.instants policy ≡ true
    → check_policy t (some (obj policy)) ≡ ok tt
unfolding check_policy
policy-checked t policy a b c = ground arith

confirmed-valid :
    (t : Tools) (intent policy : Members) (at : Json) (task : String) (s : Members)
    (files acceptance : ℕ)
    → ((v : Json) → t.is_hash (t.identity v) ≡ true)
    → ((v : Json) (i : String)
        → t.instants.instant v ≡ some i
        → t.instants.instant (str i) ≡ some i)
    → text_list (get "files" intent) ≡ ok files
    → text_list (get "acceptance" intent) ≡ ok acceptance
    → files ≤ largest
    → acceptance ≤ largest
    → all_short t.instants policy ≡ true
    → confirmed t intent policy at task ≡ ok s
    → validate_snapshot t s ≡ ok tt
unfolding confirmed
confirmed-valid t intent policy at task s files acceptance hashed stable lf la sf sa short h =
    let (kind, k, h1) = >>=-eq-ok (in_texts kinds (get "kind" intent)) _ h in
    let (risk, r, h2) = >>=-eq-ok (in_texts risks (get "risk" intent)) _ h1 in
    let (whole, h3) =
      raise_if-eq-ok (not (has_exactly policy_keys policy) || not (all_filled policy)) value_error _
        h2 in
    let (single, h4) =
      raise_if-eq-ok (not (is_str "single_agent" (get "execution_mode" policy))) value_error _ h3 in
    let (n, f, h5) = >>=-eq-ok (text_list (get "files" intent)) _ h4 in
    let (m, a, h6) = >>=-eq-ok (text_list (get "acceptance" intent)) _ h5 in
    let (c, h7) = >>-eq-ok (each_key (or_null check_integer) counts intent) _ h6 in
    let (inert, h8) = raise_if-eq-ok (not (is_inert (get "description" intent))) value_error _ h7 in
    let (instant, i, h9) = >>=-eq-ok (or_raise (t.instants.instant at) value_error) _ h8 in
    let same_one : snapshot_of t intent policy at task kind risk n m instant ≡ s = ground arith in
    let same_n : files ≡ n = ground arith in
    let same_m : acceptance ≡ m = ground arith in
    subst (λ x. validate_snapshot t x ≡ ok tt) same_one
      (snapshot_of-keys t intent policy at task kind risk n m instant (
        snapshot_of-values t intent policy at task kind risk n m instant hashed c
          (omega (arith, sf, same_n)) (omega (arith, sa, same_m)) (in_texts-again kinds _ kind k)
          (in_texts-again risks _ risk r) (policy-checked t policy whole single short)
          (stable at instant (or_raise-eq-ok _ _ i))))

-- Where every identity has the form of a hash, an instant is stable under parsing, the lists of the
-- intent are shorter than 2^63 and the values of the policy have at most 256 characters, the snapshot
-- that `features` gives for an intent is one that `validate_snapshot` accepts.
pub features-valid :
    (t : Tools) (intent policy : Members) (at : Json) (s : Members) (files acceptance : ℕ)
    → ((v : Json) → t.is_hash (t.identity v) ≡ true)
    → ((v : Json) (i : String)
        → t.instants.instant v ≡ some i
        → t.instants.instant (str i) ≡ some i)
    → text_list (get "files" intent) ≡ ok files
    → text_list (get "acceptance" intent) ≡ ok acceptance
    → files ≤ largest
    → acceptance ≤ largest
    → all_short t.instants policy ≡ true
    → features t (some intent) policy at ≡ ok (some s)
    → validate_snapshot t s ≡ ok tt
unfolding features
features-valid t intent policy at s files acceptance hashed stable lf la sf sa short h =
    let (known, h1) = raise_if-eq-ok (not (within intent_keys intent)) value_error _ h in
    elim (if-eq-ok (not (is_true (get "confirmed" intent))) _ _ h1) [
      | inl (open_question, unknown) ↦ absurd (ground arith)
      | inr (sure, h2) ↦ elim (Option-cases (task_name (get "task_id" intent))) [
        | inl nameless ↦ absurd (ground arith)
        | inr (task, named) ↦ elim (Result-cases (confirmed t intent policy at task)) [
          | inr (e, bad) ↦ absurd (ground arith)
          | inl (made, m) ↦
              confirmed-valid t intent policy at task s files acceptance hashed stable lf la sf sa
                short (ground arith)
        ]
      ]
    ]
