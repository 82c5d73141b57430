-- ===== src/Owned/Answered.antt =====
-- What a submission that returns has recorded.
use context_rollover_guard.Owned.Records.{accepted_record, route_record, transaction_record}
use context_rollover_guard.Session.{SessionState}
use context_rollover_guard.Settings.{turn_params, Settings}
use context_rollover_guard.Owned.Kept.{install-Grows, Grows}
use context_rollover_guard.Owned.Calls.{lift_keeps, bind_keeps}
use context_rollover_guard.Errors.{Exc}
use context_rollover_guard.Owned.Answer.{Host}
use context_rollover_guard.Owned.Files.{
  Name, Files, ◌>>=◌, lift, transaction, route, intent, accepted, completed, input,
}
use context_rollover_guard.Owned.Submit.{
  migrate, prepare_rollover, run_rollover, committed_result, forward, key_text, carry, finish,
  await_turn, on_step, SubmitEnv,
}
use context_rollover_guard.Owned.Events.{
  accepted_turn, armed_copy, Choice, classify, finished_answer, Arrival, migrates, refuses,
  forwards, skips, finishes, Step, Output,
}
use context_rollover_guard.Owned.Session.{write, call, emit, S, Session}
use context_rollover_guard.Rollover.Effects.{
  turn_start, Reply, Fate, Request, replies, lost, unsent, cut,
}
use context_rollover_guard.Prelude.{ℕ, String, str_append, List, [], ◌∷◌, Result}
use context_rollover_guard.Json.{Json, Members, obj}

-- Every call of a submission keeps the records that are there.
abbrev KeepsFiles : {A : Type 0} → S A → Type 0
KeepsFiles m = (fs : Files) (s : Session) → Grows fs s.files → Grows fs (m s).1.files

write-KeepsFiles : (t : Host) (fate : Fate) (n : Name) (v : Json) → KeepsFiles (write t fate n v)
unfolding write
write-KeepsFiles t fate n v fs s g = λ m w h. install-Grows t.codec fate n v s.files m w (g m w h)

call-KeepsFiles : (r : Request) (reply : Reply Members) → KeepsFiles (call r reply)
unfolding call
call-KeepsFiles r (replies a) fs s g = g
call-KeepsFiles r lost fs s g = g
call-KeepsFiles r unsent fs s g = g
call-KeepsFiles r cut fs s g = g

module _ {A B : Type 0} where
  bind-KeepsFiles :
      (m : S A) (next : A → S B)
      → KeepsFiles m
      → ((a : A) → KeepsFiles (next a))
      → KeepsFiles (m >>= next)
  bind-KeepsFiles m next first rest fs =
      bind_keeps (λ s. Grows fs s.files) m next (first fs) (λ a. rest a fs)

lift-KeepsFiles : {A : Type 0} (r : Result Exc A) → KeepsFiles (lift r)
lift-KeepsFiles r fs s g = lift_keeps (λ s. Grows fs s.files) r s g

module _ (t : Host) (env : SubmitEnv) where
  migrate-KeepsFiles :
      (n : ℕ) (v : Settings) (prompt : String) (state : SessionState)
      → KeepsFiles (migrate t env n v prompt state)
  unfolding migrate prepare_rollover run_rollover emit
  migrate-KeepsFiles n v prompt state =
      bind-KeepsFiles (prepare_rollover t env (armed_copy state) prompt v) _ (λ fs s g. g)
        λ rid.
          bind-KeepsFiles
            (write t env.transaction_write (input n transaction) (transaction_record rid)) _
            (write-KeepsFiles t env.transaction_write (input n transaction)
              (transaction_record rid))
            λ done.
              bind-KeepsFiles (run_rollover t env rid) _ (λ fs s g. g)
                λ report.
                  bind-KeepsFiles
                    (write t env.route_write (input n route) (route_record rid report)) _
                    (write-KeepsFiles t env.route_write (input n route) (route_record rid report))
                    λ done'.
                      bind-KeepsFiles (lift (committed_result report)) _
                        (lift-KeepsFiles (committed_result report)) λ o. λ fs s g. g

  forward-KeepsFiles :
      (n : ℕ) (v : Settings) (prompt : String) (thread : Json)
      → KeepsFiles (forward t env n v prompt thread)
  unfolding forward
  forward-KeepsFiles n v prompt thread =
      let params_of =
        turn_params v thread prompt (str_append t.run_name (str_append "-" (key_text t n))) in
      bind-KeepsFiles (lift params_of) _ (lift-KeepsFiles params_of) λ params.
        bind-KeepsFiles (write t env.intent_write (input n intent) (obj params)) _
          (write-KeepsFiles t env.intent_write (input n intent) (obj params))
          λ done.
            bind-KeepsFiles (call (turn_start params) env.turn_reply) _
              (call-KeepsFiles (turn_start params) env.turn_reply)
              λ result.
                bind-KeepsFiles (lift (accepted_turn result)) _
                  (lift-KeepsFiles (accepted_turn result))
                  λ turn.
                    bind-KeepsFiles
                      (write t env.accepted_write (input n accepted) (accepted_record thread turn))
                      _
                      (write-KeepsFiles t env.accepted_write (input n accepted)
                        (accepted_record thread turn))
                      λ done'. λ fs s g. g

  pub carry-KeepsFiles :
      (n : ℕ) (v : Settings) (prompt : String) (thread : Json) (c : Choice)
      → KeepsFiles (carry t env n v prompt thread c)
  unfolding carry
  carry-KeepsFiles n v prompt thread (migrates state) = migrate-KeepsFiles n v prompt state
  carry-KeepsFiles n v prompt thread refuses = λ fs s g. g
  carry-KeepsFiles n v prompt thread forwards = forward-KeepsFiles n v prompt thread

  finish-KeepsFiles :
      (n : ℕ) (thread turn : Json) (p : Members) → KeepsFiles (finish t env n thread turn p)
  unfolding finish emit
  finish-KeepsFiles n thread turn p =
      bind-KeepsFiles (write t env.completed_write (input n completed) (obj p)) _
        (write-KeepsFiles t env.completed_write (input n completed) (obj p))
        λ done.
          bind-KeepsFiles (lift (finished_answer t env.after thread turn p)) _
            (lift-KeepsFiles (finished_answer t env.after thread turn p)) λ output. λ fs s g. g

  on_step-KeepsFiles :
      (n : ℕ) (thread turn : Json) (rest : S Output)
      → KeepsFiles rest
      → (step : Step) → KeepsFiles (on_step t env n thread turn rest step)
  on_step-KeepsFiles n thread turn rest keeps skips = keeps
  on_step-KeepsFiles n thread turn rest keeps (finishes p) = finish-KeepsFiles n thread turn p

  pub await_turn-KeepsFiles :
      (n : ℕ) (thread turn : Json) (arrivals : List Arrival)
      → KeepsFiles (await_turn t env n thread turn arrivals)
  unfolding await_turn
  await_turn-KeepsFiles n thread turn [] = λ fs s g. g
  await_turn-KeepsFiles n thread turn (a ∷ rest) =
      let step = classify env.has_approver thread turn a in
      bind-KeepsFiles (lift step) _ (lift-KeepsFiles step) (
        on_step-KeepsFiles n thread turn (await_turn t env n thread turn rest)
          (await_turn-KeepsFiles n thread turn rest))
