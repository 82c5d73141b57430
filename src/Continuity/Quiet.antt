-- ===== src/Continuity/Quiet.antt =====
-- What a quiet point guarantees, and the order of precedence of the policy.
use context_rollover_guard.Prelude.{
  inr, sym, subst, ◌⊎◌, inl, String, ◌≡◌, refl, ◌↔◌, [], ◌∷◌, All, true, false, Option, none, some,
  List, arith, all, eq_iff,
}
use context_rollover_guard.Continuity.{
  malformed, entry, Signals, decide, Entry, Activity, quiet_point, one_of, finished_turns, settled,
  all_settled, recovery_required, migrate_explicit, warn,
}

-- A turn that is over, by its state.
pub data IsOver : Option String → Type 0 where
  over_completed : IsOver (some "completed")
  over_failed : IsOver (some "failed")
  over_cancelled : IsOver (some "cancelled")
  over_idle : IsOver (some "idle")

-- A tool or a child that is over: an entry with such a state.
pub data HasEnded : Entry → Type 0 where
  ended_completed : HasEnded (entry (some "completed"))
  ended_failed : HasEnded (entry (some "failed"))
  ended_cancelled : HasEnded (entry (some "cancelled"))
  ended_detached : HasEnded (entry (some "detached"))

-- A complete snapshot of the thread in which the turn, every tool and every child are over.
pub record IsQuiet (a : Activity) (thread : String) : Type 0 where
  pub thread_id : a.thread_id ≡ some thread
  pub complete : a.complete ≡ true
  pub turn : IsOver a.turn_state
  pub tools : (l : List Entry) × (a.tools ≡ some l) × All HasEnded l
  pub children : (l : List Entry) × (a.children ≡ some l) × All HasEnded l

one_of_self : (o : Option String) (name : String) → one_of (name ∷ []) o ≡ true → o ≡ some name
one_of_self none name h = cc
one_of_self (some s) name h = ground (arith, eq_iff s name)

one_of_four :
    (a b c d : String) (o : Option String)
    → one_of (a ∷ b ∷ c ∷ d ∷ []) o ≡ true
    → (o ≡ some a) ⊎ (o ≡ some b) ⊎ (o ≡ some c) ⊎ (o ≡ some d)
one_of_four a b c d none h = cc
one_of_four a b c d (some s) h = ground (arith, eq_iff s a, eq_iff s b, eq_iff s c, eq_iff s d)

IsOver-one_of : (o : Option String) → IsOver o → one_of finished_turns o ≡ true
IsOver-one_of _ over_completed = refl
IsOver-one_of _ over_failed = refl
IsOver-one_of _ over_cancelled = refl
IsOver-one_of _ over_idle = refl

one_of-IsOver : (o : Option String) → one_of finished_turns o ≡ true → IsOver o
one_of-IsOver o h = elim (one_of_four "completed" "failed" "cancelled" "idle" o h) [
  | inl e ↦ subst IsOver (sym e) over_completed
  | inr (inl e) ↦ subst IsOver (sym e) over_failed
  | inr (inr (inl e)) ↦ subst IsOver (sym e) over_cancelled
  | inr (inr (inr e)) ↦ subst IsOver (sym e) over_idle
]

HasEnded-settled : (e : Entry) → HasEnded e → settled e ≡ true
HasEnded-settled _ ended_completed = refl
HasEnded-settled _ ended_failed = refl
HasEnded-settled _ ended_cancelled = refl
HasEnded-settled _ ended_detached = refl

settled-HasEnded : (e : Entry) → settled e ≡ true → HasEnded e
settled-HasEnded malformed h = cc
settled-HasEnded (entry o) h = elim (one_of_four "completed" "failed" "cancelled" "detached" o h) [
  | inl e ↦ subst (λ x. HasEnded (entry x)) (sym e) ended_completed
  | inr (inl e) ↦ subst (λ x. HasEnded (entry x)) (sym e) ended_failed
  | inr (inr (inl e)) ↦ subst (λ x. HasEnded (entry x)) (sym e) ended_cancelled
  | inr (inr (inr e)) ↦ subst (λ x. HasEnded (entry x)) (sym e) ended_detached
]

all_settled-All : (xs : List Entry) → all settled xs ≡ true → All HasEnded xs
all_settled-All [] h = tt
all_settled-All (x ∷ xs) h = (settled-HasEnded x (ground arith), all_settled-All xs (ground arith))

All-all : (xs : List Entry) → All HasEnded xs → all settled xs ≡ true
All-all [] h = refl
All-all (x ∷ xs) (e, rest) =
    let first = HasEnded-settled x e in let others = All-all xs rest in ground arith

all_settled-listed :
    (items : Option (List Entry))
    → all_settled items ≡ true
    → (l : List Entry) × (items ≡ some l) × All HasEnded l
all_settled-listed none h = cc
all_settled-listed (some l) h = (l, refl, all_settled-All l h)

listed-all_settled :
    (items : Option (List Entry))
    → (l : List Entry) × (items ≡ some l) × All HasEnded l
    → all_settled items ≡ true
listed-all_settled items (l, e, ended) = let all_ended = All-all l ended in ground arith

quiet_point-IsQuiet :
    (a : Activity) (thread : String) → quiet_point (some a) thread ≡ true → IsQuiet a thread
unfolding quiet_point
quiet_point-IsQuiet a thread h = record {
  thread_id = one_of_self a.thread_id thread (ground arith);
  complete = ground arith;
  turn = one_of-IsOver a.turn_state (ground arith);
  tools = all_settled-listed a.tools (ground arith);
  children = all_settled-listed a.children (ground arith);
}

IsQuiet-quiet_point :
    (a : Activity) (thread : String) → IsQuiet a thread → quiet_point (some a) thread ≡ true
unfolding quiet_point
IsQuiet-quiet_point a thread q =
    let own = q.thread_id in
    let complete = q.complete in
    let turn = IsOver-one_of a.turn_state q.turn in
    let tools = listed-all_settled a.tools q.tools in
    let children = listed-all_settled a.children q.children in ground (arith, eq_iff thread thread)

-- `quiet_point` answers yes exactly on a complete snapshot of that very thread whose turn is
-- completed, failed, cancelled or idle, with a list of tools and a list of children in which every
-- entry is completed, failed, cancelled or detached.
pub quiet_point-evidence :
    (a : Option Activity) (thread : String)
    → (quiet_point a thread ≡ true) ↔ ((s : Activity) × (a ≡ some s) × IsQuiet s thread)
unfolding quiet_point
quiet_point-evidence none thread = (λ h. cc, λ (s, e, q). cc)
quiet_point-evidence (some a) thread = (
  λ h. (a, refl, quiet_point-IsQuiet a thread h),
  λ (s, e, q).
      let found : a ≡ s = ground arith in
      IsQuiet-quiet_point a thread (subst (λ x. IsQuiet x thread) (sym found) q),
)

-- A doubt outranks every wish, an explicit wish every signal, and a warning needs high pressure.
pub decide_precedence :
    (s : Signals)
    → ((decide s ≡ recovery_required) ↔ (s.ambiguous ≡ true))
      × ((decide s ≡ migrate_explicit) ↔ ((s.explicit_fresh ≡ true) × (s.ambiguous ≡ false)))
      × (decide s ≡ warn
          → (s.high_pressure ≡ true) × (s.native_healthy ≡ false) × (s.handoff_done ≡ false))
unfolding decide
decide_precedence s = (
  (λ h. ground arith, λ h. ground arith),
  (λ h. ground arith, λ h. ground arith),
  λ h. ground arith,
)
