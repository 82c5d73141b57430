-- ===== src/Session/Protocol.antt =====
-- Chains of transitions of one session, and what a return to NORMAL proves (crg/domain.py).
use context_rollover_guard.Prelude.{
  String, ◌≡◌, refl, ◌⊎◌, inl, inr, Bool, true, false, ◌&&◌, List, [], ◌∷◌, Result, ok, ◌>>=◌,
  >>=-eq-ok, arith, any,
}
use context_rollover_guard.Session.{
  State, normal, starting, forwarding, archiving, recovery, SessionState, Platform, Evidence,
  Invalid, transition,
}
use context_rollover_guard.Session.Moves.{
  Move, arm, start, forward, archive, commit, fail, transition_sound,
}

-- A call of `transition`: its clock reading, target and evidence.
pub record Call : Type 0 where
  pub now : String
  pub target : State
  pub evidence : Evidence

-- The state after the calls, each of which returns.
unfoldable pub follow : Platform → SessionState → List Call → Result Invalid SessionState
follow p s [] = ok s
follow p s (c ∷ cs) = do t ← transition p c.now s c.target c.evidence; follow p t cs

-- Whether a rollover that stands at a state still owes a piece of evidence before NORMAL.
pub record Debt : Type 0 where
  pub bit : Evidence → Bool
  pub owed : State → Bool
  pub paid_at_normal : owed normal ≡ false
  pub paid_by_move :
      (e : Evidence) (s t : State) → Move e s t → owed s ≡ true → bit e ≡ false → owed t ≡ true

module _ (d : Debt) (p : Platform) where
  one_call :
      (c : Call) (s t : SessionState)
      → transition p c.now s c.target c.evidence ≡ ok t
      → d.owed s.state ≡ true
      → d.bit c.evidence ≡ false
      → d.owed t.state ≡ true
  one_call c s t h o b = elim (transition_sound p c.now s c.evidence c.target t h) [
    | inl q ↦ ground arith
    | inr m ↦ ground (arith, d.paid_by_move c.evidence s.state c.target m.0 o b)
  ]

  -- A chain from a state in debt to NORMAL has a call with the evidence.
  pub follow-paid :
      (cs : List Call) (s t : SessionState)
      → follow p s cs ≡ ok t
      → d.owed s.state ≡ true
      → t.state ≡ normal
      → any (λ c. d.bit c.evidence) cs ≡ true
  unfolding follow
  follow-paid [] s t h o n = ground (arith, d.paid_at_normal)
  follow-paid (c ∷ cs) s t h o n =
      let (u, first, rest) =
        >>=-eq-ok (transition p c.now s c.target c.evidence) (λ u. follow p u cs) h in
      ground (arith, one_call c s u first o, follow-paid cs u t rest)

-- Every state of a rollover but NORMAL.
abbrev in_rollover : State → Bool
in_rollover normal = false
in_rollover _ = true

abbrev before_archiving : State → Bool
before_archiving normal = false
before_archiving archiving = false
before_archiving _ = true

abbrev before_forwarding : State → Bool
before_forwarding forwarding = false
before_forwarding s = before_archiving s

abbrev before_starting : State → Bool
before_starting starting = false
before_starting s = before_forwarding s

commit_debt_step :
    (e : Evidence) (s t : State)
    → Move e s t
    → in_rollover s ≡ true
    → e.transaction_committed ≡ false
    → in_rollover t ≡ true
commit_debt_step e s t arm o b = refl
commit_debt_step e s t (commit h) o b = cc
commit_debt_step e s t _ o b = refl

turn_debt_step :
    (e : Evidence) (s t : State)
    → Move e s t
    → before_archiving s ≡ true
    → e.turn_accepted ≡ false
    → before_archiving t ≡ true
turn_debt_step e s t arm o b = refl
turn_debt_step e s t (archive h) o b = cc
turn_debt_step e s t (commit h) o b = cc
turn_debt_step e s t _ o b = refl

thread_debt_step :
    (e : Evidence) (s t : State)
    → Move e s t
    → before_forwarding s ≡ true
    → e.new_thread_started ≡ false
    → before_forwarding t ≡ true
thread_debt_step e s t arm o b = refl
thread_debt_step e s t (forward h) o b = cc
thread_debt_step e s t (archive h) o b = cc
thread_debt_step e s t (commit h) o b = cc
thread_debt_step e s t _ o b = refl

-- What a handoff saves before a thread is started.
abbrev pub handed_off : Evidence → Bool
handed_off e = e.prompt_persisted && (e.answer_archived && e.handoff_written)

handoff_debt_step :
    (e : Evidence) (s t : State)
    → Move e s t
    → before_starting s ≡ true
    → handed_off e ≡ false
    → before_starting t ≡ true
handoff_debt_step e s t arm o b = refl
handoff_debt_step e s t (start f g h) o b = ground arith
handoff_debt_step e s t (forward h) o b = cc
handoff_debt_step e s t (archive h) o b = cc
handoff_debt_step e s t (commit h) o b = cc
handoff_debt_step e s t _ o b = refl

abbrev debt :
    (bit : Evidence → Bool) (owed : State → Bool)
    → owed normal ≡ false
    → ((e : Evidence) (s t : State) → Move e s t → owed s ≡ true → bit e ≡ false → owed t ≡ true)
    → Debt
debt bit owed n m = record { bit = bit; owed = owed; paid_at_normal = n; paid_by_move = m }

-- A session that stands before the start of its new thread and gets back to NORMAL has been given,
-- in some call, all three pieces of the handoff, the started thread, the accepted turn and the
-- committed transaction.
pub follow-evidence :
    (p : Platform) (cs : List Call) (s t : SessionState)
    → follow p s cs ≡ ok t
    → before_starting s.state ≡ true
    → t.state ≡ normal
    → (any (λ c. handed_off c.evidence) cs ≡ true)
      × (any (λ c. c.evidence.new_thread_started) cs ≡ true)
      × (any (λ c. c.evidence.turn_accepted) cs ≡ true)
      × (any (λ c. c.evidence.transaction_committed) cs ≡ true)
follow-evidence p cs s t h o n = (
  follow-paid (debt handed_off before_starting refl handoff_debt_step) p cs s t h o n,
  follow-paid (debt (λ e. e.new_thread_started) before_forwarding refl thread_debt_step) p cs s t h
      (ground arith) n,
  follow-paid (debt (λ e. e.turn_accepted) before_archiving refl turn_debt_step) p cs s t h
      (ground arith) n,
  follow-paid (debt (λ e. e.transaction_committed) in_rollover refl commit_debt_step) p cs s t h
      (ground arith) n,
)

-- No chain of transitions leaves RECOVERY_REQUIRED.
pub follow-recovery :
    (p : Platform) (cs : List Call) (s t : SessionState)
    → follow p s cs ≡ ok t
    → s.state ≡ recovery
    → t.state ≡ recovery
unfolding follow
follow-recovery p [] s t h r = ground arith
follow-recovery p (c ∷ cs) s t h r =
    let (u, first, rest) =
      >>=-eq-ok (transition p c.now s c.target c.evidence) (λ u. follow p u cs) h in
    follow-recovery p cs u t rest (stays u (transition_sound p c.now s c.evidence c.target u first))
  where
    from_recovery : {e : Evidence} {a b : State} → Move e a b → a ≡ recovery → b ≡ recovery
    from_recovery (fail a) q = refl
    from_recovery arm q = cc
    from_recovery _ q = cc

    stays :
        (u : SessionState)
        → ((c.target ≡ s.state) × (u ≡ s))
          ⊎ (Move c.evidence s.state c.target
              × (u ≡ record s { state = c.target; updated_at = c.now }))
        → u.state ≡ recovery
    stays u (inl q) = ground arith
    stays u (inr q) = ground (arith, from_recovery q.0 r)
