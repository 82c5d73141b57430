-- ===== src/StateStore/Legal.antt =====
-- What an update may change of a stored state.
use context_rollover_guard.Prelude.{
  String, ◌≡◌, refl, sym, subst, ◌⊎◌, inl, inr, true, false, not, Option, some, arith, eq_iff,
  Result, ok, err, ◌>>=◌, raise_if-eq-ok, >>-eq-ok, if-eq-ok, >>=-eq-ok, Result-cases, Bool-cases,
}
use context_rollover_guard.Session.{
  SessionState, Platform, Evidence, recovery, same_state, transition,
}
use context_rollover_guard.Session.Moves.{Move, transition_sound, same_state-eq}
use context_rollover_guard.StateStore.Codec.{Codec, StoreError, encode}
use context_rollover_guard.StateStore.Store.{
  Disk, Owner, Fate, atomic, decode_own, load, Change, Decision, keep, write, decide, carry_out,
  update, base_of, check_candidate, same_identity, advanced, next_revision, legal_move, valid_state,
  returns, unchanged, stale, backup_of,
}

-- The new state is the old one's successor.
pub record Succeeds (e : Evidence) (old new : SessionState) : Type 0 where
  pub revision : new.revision ≡ next_revision old.revision
  pub workspace : new.workspace_id ≡ old.workspace_id
  pub cwd : new.cwd ≡ old.cwd
  pub session : new.session_id ≡ old.session_id
  pub thread : new.thread_id ≡ old.thread_id
  pub move : (new.state ≡ old.state) ⊎ Move e old.state new.state
  pub alive : same_state old.state recovery ≡ false

module _ (p : Platform) (k : Codec) (owner : Owner) (at : String) where
  legal_move-Move :
      (base candidate : SessionState) (e : Evidence)
      → legal_move p k owner at base candidate e ≡ ok tt
      → (candidate.state ≡ base.state) ⊎ Move e base.state candidate.state
  legal_move-Move base candidate e h = elim (Bool-cases (same_state candidate.state base.state)) [
    | inl s ↦ inl (same_state-eq candidate.state base.state s)
    | inr d ↦ elim (Result-cases (transition p at base candidate.state e)) [
      | inr (x, bad) ↦ absurd (ground arith)
      | inl (t, moved) ↦ elim (transition_sound p at base e candidate.state t moved) [
        | inl (stays, s) ↦ inl stays
        | inr (m, s) ↦ inr m
      ]
    ]
  ]

  same_identity-fields :
      (a b : SessionState)
      → same_identity a b ≡ true
      → (a.workspace_id ≡ b.workspace_id)
        × (a.cwd ≡ b.cwd)
        × (a.session_id ≡ b.session_id)
        × (a.thread_id ≡ b.thread_id)
  unfolding same_identity
  same_identity-fields a b h = ground (
    arith,
    eq_iff a.workspace_id b.workspace_id,
    eq_iff a.cwd b.cwd,
    eq_iff a.session_id b.session_id,
    eq_iff a.thread_id b.thread_id,
  )

  check_candidate-Succeeds :
      (old candidate : SessionState) (e : Evidence)
      → check_candidate p k owner at old e candidate ≡ ok tt
      → same_state old.state recovery ≡ false
      → Succeeds e old (advanced p k owner at old candidate)
  unfolding check_candidate advanced
  check_candidate-Succeeds old candidate e h alive =
      let (valid, v, h1) = >>=-eq-ok (valid_state p k owner at candidate) _ h in
      let (same_one, h2) = raise_if-eq-ok (not (same_identity candidate old)) _ _ h1 in
      let (raw, r, h3) = >>=-eq-ok (encode p k candidate) _ h2 in
      let (again, a, h4) = >>=-eq-ok (decode_own p k owner at raw) _ h3 in
      let (w, c, s, t) = same_identity-fields candidate old (ground arith) in
      record {
        revision = refl;
        workspace = w;
        cwd = c;
        session = s;
        thread = t;
        move = legal_move-Move old candidate e h4;
        alive = alive;
      }

  base_of-stored :
      (old : SessionState) (initial : Option SessionState) (base : SessionState)
      → base_of p k owner at (some old, false) initial ≡ ok base
      → (base ≡ old) × (same_state old.state recovery ≡ false)
  unfolding base_of
  base_of-stored old initial base h = ground arith

  -- The decision of an update on a stored state: to keep it, or to write a successor.
  decide-Succeeds :
      (change : Change) (old : SessionState) (made : Decision)
      → decide p k owner at change (some old, false) ≡ ok made
      → (made ≡ keep old)
        ⊎ ((s : SessionState) × (raw backup : String) × (made ≡ write s raw backup)
            × Succeeds change.evidence old s)
  unfolding decide
  decide-Succeeds change old made h =
      let (base, b, h1) = >>=-eq-ok (base_of p k owner at (some old, false) change.initial) _ h in
      let (same_base, alive) = base_of-stored old change.initial base b in
      let (fresh, h2) = raise_if-eq-ok (stale change.expected_revision base.revision) _ _ h1 in
      let (candidate, m, h3) = >>=-eq-ok (change.mutate base) _ h2 in
      let (c, h4) = >>-eq-ok (check_candidate p k owner at base change.evidence candidate) _ h3 in
      let next =
        subst (λ b. Succeeds change.evidence b (advanced p k owner at base candidate)) same_base
          (check_candidate-Succeeds base candidate change.evidence c
            (subst (λ b. same_state b.state recovery ≡ false) (sym same_base) alive)) in
      elim (if-eq-ok (unchanged (some old) candidate) _ _ h4) [
        | inl (is_same, kept) ↦ inl (ground arith)
        | inr (is_new, h5) ↦
            let (data_bytes, d, h6) =
              >>=-eq-ok (encode p k (advanced p k owner at base candidate)) _ h5 in
            let (backup, f, h7) = >>=-eq-ok (backup_of p k owner at (some old) data_bytes) _ h6 in
            inr (advanced p k owner at base candidate, data_bytes, backup, ground arith, next)
      ]

  carry_out-returns :
      (first second : Fate) (decision : Result StoreError Decision) (d : Disk) (t : SessionState)
      → (carry_out p k owner at first second decision d).0 ≡ returns t
      → (decision ≡ ok (keep t)) ⊎ ((raw backup : String) × (decision ≡ ok (write t raw backup)))
  unfolding carry_out atomic
  carry_out-returns first second (err e) d t h = ground arith
  carry_out-returns first second (ok (keep s)) d t h = ground arith
  carry_out-returns first second (ok (write s raw backup)) d t h = inr (raw, backup, ground arith)

  -- An update of a stored state that returns gives that state unchanged, or a successor: its revision
  -- is one more, its workspace, session and thread are the same, its state is the same or one legal
  -- move away under the given evidence, and the old one did not wait for recovery.
  pub update-Succeeds :
      (change : Change) (first second : Fate) (d : Disk) (old t : SessionState)
      → load p k owner at d ≡ ok (some old, false)
      → (update p k owner at change first second d).0 ≡ returns t
      → (t ≡ old) ⊎ Succeeds change.evidence old t
  unfolding update
  update-Succeeds change first second d old t h r = elim (carry_out-returns first second _ d t r) [
    | inl kept ↦ elim (decide-Succeeds change old (keep t) (stored (keep t) kept)) [
      | inl same_one ↦ inl (ground arith)
      | inr (s, raw, backup, written, next) ↦ absurd (ground arith)
    ]
    | inr (raw, backup, new) ↦
        elim (decide-Succeeds change old (write t raw backup) (stored (write t raw backup) new)) [
          | inl same_one ↦ absurd (ground arith)
          | inr (s, raw', backup', written, next) ↦
              inr (subst (λ x. Succeeds change.evidence old x) (ground arith) next)
        ]
  ]
    where
      stored :
          (made : Decision)
          → (load p k owner at d >>= λ loaded. decide p k owner at change loaded) ≡ ok made
          → decide p k owner at change (some old, false) ≡ ok made
      stored made = subst (λ x. (x >>= λ loaded. decide p k owner at change loaded) ≡ ok made) h
