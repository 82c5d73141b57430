-- ===== src/Owned/Resume.antt =====
-- `OwnedSession.resume` (crg/owned_client.py): a session takes up the run of another process where
-- every input of it is finished.
use context_rollover_guard.Rollover.Effects.{thread_resume}
use context_rollover_guard.Owned.Session.{ready, emit, call, S}
use context_rollover_guard.Settings.{Settings}
use context_rollover_guard.Owned.Walk.{same_thread, resumable, resume_params, ResumeEnv}
use context_rollover_guard.Owned.Answer.{Host}
use context_rollover_guard.Owned.Files.{lift, returns, Files, ◌>>=◌, ◌>>◌}
use context_rollover_guard.Prelude.{ℕ, some, List, length}
use context_rollover_guard.Json.{Json}

-- `self.root, self.thread, self.settings, self.sequence = …`
unfoldable pub take_up : Files → Settings → Json → ℕ → S (Unit {0})
take_up fs v thread n s =
    (returns tt, record s { files = fs; thread = some thread; settings = some v; sequence = n })

unfoldable pub reopen : Host → ResumeEnv → Settings × (Json × List ℕ) → S (Unit {0})
reopen t env (v, (thread, ns)) = do
  params ← lift (resume_params t v thread)
  response ← call (thread_resume params) env.reply
  lift (same_thread t v thread response)
  take_up env.files v thread (length ns)
  emit (ready thread)

unfoldable pub resume : Host → ResumeEnv → S (Unit {0})
resume t env = lift (resumable t env) >>= reopen t env
