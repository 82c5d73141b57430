-- ===== src/Session/Moves.antt =====
-- The legal moves of a session, described on their own, and what `transition` does to a state.
use context_rollover_guard.Prelude.{String, ◌≡◌, refl, ◌⊎◌, true, ok, arith}
use context_rollover_guard.Session.{
  State, normal, armed, preparing, starting, forwarding, archiving, emergency, recovery,
  SessionState, Platform, Evidence, transition, check_move, same_state,
}

-- The protocol: a prompt is saved before a rollover is prepared, and so on to the commit.
pub data Move (e : Evidence) : State → State → Type 0 where
  arm : Move e normal armed
  surprise : Move e normal emergency
  overflow : Move e armed emergency
  prepare : e.prompt_persisted ≡ true → Move e armed preparing
  prepare_late : e.prompt_persisted ≡ true → Move e emergency preparing
  start :
      e.prompt_persisted ≡ true
      → e.answer_archived ≡ true
      → e.handoff_written ≡ true
      → Move e preparing starting
  forward : e.new_thread_started ≡ true → Move e starting forwarding
  archive : e.turn_accepted ≡ true → Move e forwarding archiving
  commit : e.transaction_committed ≡ true → Move e archiving normal
  fail : (s : State) → Move e s recovery

check_sound : (s t : State) (e : Evidence) → check_move s t e ≡ ok tt → Move e s t
unfolding check_move
check_sound s recovery e h = fail s
check_sound normal armed e h = arm
check_sound normal emergency e h = surprise
check_sound armed emergency e h = overflow
check_sound armed preparing e h = prepare (ground arith)
check_sound emergency preparing e h = prepare_late (ground arith)
check_sound preparing starting e h = start (ground arith) (ground arith) (ground arith)
check_sound starting forwarding e h = forward (ground arith)
check_sound forwarding archiving e h = archive (ground arith)
check_sound archiving normal e h = commit (ground arith)
check_sound _ _ e h = cc

pub same_state-eq : (s t : State) → same_state s t ≡ true → s ≡ t
unfolding same_state
same_state-eq normal normal h = refl
same_state-eq armed armed h = refl
same_state-eq preparing preparing h = refl
same_state-eq starting starting h = refl
same_state-eq forwarding forwarding h = refl
same_state-eq archiving archiving h = refl
same_state-eq emergency emergency h = refl
same_state-eq recovery recovery h = refl
same_state-eq _ _ h = cc

same_state_refl : (s : State) → same_state s s ≡ true
unfolding same_state
same_state_refl normal = refl
same_state_refl armed = refl
same_state_refl _ = refl

-- `transition` raises, keeps the state as it is, or makes a move of the protocol.
pub transition_sound :
    (p : Platform) (now : String) (s : SessionState) (e : Evidence) (target : State)
    (t : SessionState)
    → transition p now s target e ≡ ok t
    → ((target ≡ s.state) × (t ≡ s))
      ⊎ (Move e s.state target × (t ≡ record s { state = target; updated_at = now }))
unfolding transition
transition_sound p now s e target t h =
    ground (arith, same_state-eq target s.state, check_sound s.state target e)
