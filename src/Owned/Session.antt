-- ===== src/Owned/Session.antt =====
-- The state of `OwnedSession` (crg/owned_client.py), its requests, and `start`. The events that the
-- session emits are listed with it; `emit` itself is taken not to raise.
use context_rollover_guard.Owned.Events.{Output}
use context_rollover_guard.Rollover.Checks.{thread_id_of}
use context_rollover_guard.Owned.Checks.{usable, same_workspace, start_params, requested_cwd}
use context_rollover_guard.Errors.{client_error, value_error}
use context_rollover_guard.Rollover.Prepare.{Registry}
use context_rollover_guard.Settings.{from_start, Settings}
use context_rollover_guard.Owned.Answer.{Host}
use context_rollover_guard.Rollover.Effects.{
  lost, unsent, cut, Journal, replies, Outcome, thread_start, Reply, Fate, Request,
}
use context_rollover_guard.Continuity.{Policy}
use context_rollover_guard.Prelude.{
  ℕ, String, Bool, true, ◌||◌, not, Option, none, some, List, ◌∷◌, is_some,
}
use context_rollover_guard.Owned.Files.{
  stops, start_intent, lift, started, install, Name, raises, raise_when, Files, returns, Answer, M,
  ◌>>=◌, ◌>>◌,
}
use context_rollover_guard.Json.{Json, Members, str, obj, same}

pub data Notice : Type 0 where
  ready : Json → Notice
  continuity : Policy → Notice
  rolled_over : Outcome → Notice
  recovery_required : Notice
  answered : Output → Notice

pub record Session : Type 0 where
  pub thread : Option Json
  pub settings : Option Settings
  pub blocked : Bool
  pub sequence : ℕ
  pub files : Files
  -- the transactions of the coordinator: its registry, and each journal
  pub registry : Registry
  pub journals : List (String × Journal)
  -- the newest first
  pub sent : List Request
  pub emitted : List Notice

abbrev pub S {ℓ} : Type ℓ → Type ℓ
S A = M Session A

abbrev with_files : Session → Answer (Unit {0}) × Files → Answer (Unit {0}) × Session
with_files s (a, fs) = (a, record s { files = fs })

-- record
unfoldable pub write : Host → Fate → Name → Json → S (Unit {0})
write t fate n v s = with_files s (install t.codec fate n v s.files)

-- client.request
unfoldable pub call {ℓ} : {A : Type ℓ} → Request → Reply A → S A
call r (replies a) s = (returns a, record s { sent = r ∷ s.sent })
call r lost s = (raises client_error, record s { sent = r ∷ s.sent })
call r unsent s = (raises client_error, s)
call r cut s = (stops, record s { sent = r ∷ s.sent })

unfoldable pub emit : Notice → S (Unit {0})
emit n s = (returns tt, record s { emitted = n ∷ s.emitted })

-- `except BaseException: self.blocked = True; raise`
unfoldable pub block {ℓ} : {A : Type ℓ} → Answer A × Session → Answer A × Session
block (returns a, s) = (returns a, s)
block (raises e, s) = (raises e, record s { blocked = true })
block (stops, s) = (stops, s)

-- What becomes of the effects of `start`.
pub record StartEnv : Type 0 where
  pub intent_write : Fate
  pub reply : Reply Members
  pub started_write : Fate

abbrev pub adopt_settings : Settings → S (Unit {0})
adopt_settings v s = (returns tt, record s { settings = some v })

abbrev pub adopt_thread : Json → S (Unit {0})
adopt_thread id s = (returns tt, record s { thread = some id })

unfoldable pub begin : Host → StartEnv → Members → S (Unit {0})
begin t env params = do
  response ← call (thread_start params) env.reply
  write t env.started_write started (obj response)
  v ← lift (from_start t.platform response)
  adopt_settings v
  lift (usable t params v)
  id ← lift (thread_id_of response)
  adopt_thread id
  lift (same_workspace t response)

abbrev ready_notice : S (Unit {0})
ready_notice s = elim s.thread [ none ↦ (returns tt, s) | some id ↦ emit (ready id) s ]

unfoldable pub start : Host → StartEnv → Members → S (Unit {0})
start t env params s =
    (raise_when (is_some s.thread || s.blocked) value_error
        >> (raise_when (not (same (requested_cwd t params) (str t.workspace))) value_error
            >> (write t env.intent_write start_intent (obj (start_params t params))
                >> ((λ s'. block (begin t env (start_params t params) s')) >> ready_notice))))
      s
