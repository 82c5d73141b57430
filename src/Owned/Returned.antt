-- ===== src/Owned/Returned.antt =====
-- A submission that returns its answer.
use context_rollover_guard.Continuity.{decide}
use context_rollover_guard.Owned.Answered.{carry-KeepsFiles, await_turn-KeepsFiles}
use context_rollover_guard.Owned.Calls.{lift-eq-returns, >>=-eq-returns}
use context_rollover_guard.Errors.{type_error}
use context_rollover_guard.Owned.Records.{source_record}
use context_rollover_guard.Owned.Received.{complete-Received, Received}
use context_rollover_guard.Owned.Kept.{install-HasText, Grows, HasText}
use context_rollover_guard.Owned.Events.{choose, signals, Output}
use context_rollover_guard.Settings.{Settings}
use context_rollover_guard.Owned.Answer.{stored_state, Host}
use context_rollover_guard.Owned.Files.{Answer, lift, returns, raises, stops, input, source}
use context_rollover_guard.Owned.Submit.{
  thread_or_null, complete, attempt, protected, numbered, submit, carry, await_turn, SubmitEnv,
  alarm, no_thread,
}
use context_rollover_guard.Owned.Session.{write, emit, Session, block, continuity}
use context_rollover_guard.Prelude.{
  ℕ, suc, String, ◌≡◌, sym, ap, ◌∙◌, subst, inl, inr, Bool, ◌||◌, Option, none, some, ◌∷◌, arith,
  Bool-cases, Option-cases,
}
use context_rollover_guard.Json.{Json}

abbrev pub Recorded : Host → SubmitEnv → String → Bool → Session → Session → Output → Type 0
Recorded t env prompt fresh s s' output =
    ((thread : Json) × (s.thread ≡ some thread)
      × HasText t.codec (input (suc s.sequence) source) (source_record thread prompt fresh)
          s'.files)
    × Received t env (suc s.sequence) s' output

complete-returns :
    (t : Host) (env : SubmitEnv) (n : ℕ) (turn : Json) (s s' : Session) (output : Output)
    → complete t env n turn s ≡ (returns output, s')
    → Received t env n s' output × Grows s.files s'.files
unfolding complete
complete-returns t env n turn s s' output h = elim (Option-cases s.thread) [
  | inl missing ↦ absurd (ground arith)
  | inr (thread, at) ↦
      let goes : await_turn t env n thread turn env.arrivals s ≡ (returns output, s') =
        ground arith in
      (
        complete-Received t env n thread turn s s' output at h,
        subst (λ (r : Answer Output × Session). Grows s.files r.1.files) goes
            (await_turn-KeepsFiles t env n thread turn env.arrivals s.files s (λ m w e. e)),
      )
]

attempt-returns :
    (t : Host) (env : SubmitEnv) (n : ℕ) (v : Settings) (prompt : String) (fresh : Bool)
    (thread : Json) (s s' : Session) (output : Output)
    → attempt t env n v prompt fresh thread s ≡ (returns output, s')
    → Received t env n s' output × Grows s.files s'.files
unfolding attempt emit
attempt-returns t env n v prompt fresh thread s s' output h =
    let (state, s1, looked, h1) = >>=-eq-returns (lift (stored_state t env.before thread)) _ s h in
    let (stored, same_session) = lift-eq-returns (stored_state t env.before thread) s looked in
    let told = continuity (decide (signals fresh state)) in
    let s2 : Session = record s1 { emitted = told ∷ s1.emitted } in
    let (turn, s3, carried, h3) =
      >>=-eq-returns (carry t env n v prompt thread (choose fresh state)) _ s2 h1 in
    let (received, grows) = complete-returns t env n turn s3 s' output h3 in
    let first : Grows s2.files s3.files =
      subst (λ (r : Answer Json × Session). Grows s2.files r.1.files) carried
        (carry-KeepsFiles t env n v prompt thread (choose fresh state) s2.files s2 (λ m w e. e)) in
    (
      received,
      subst (λ (x : Session). Grows x.files s'.files) (sym same_session)
          (λ m w e. grows m w (first m w e)),
    )

-- What returns through the handler was not changed by it.
alarm-returns :
    (t : Host) (env : SubmitEnv) (a : Answer Output) (s s' : Session) (output : Output)
    → alarm t env (block (a, s)) ≡ (returns output, s')
    → ◌≡◌ {A = Answer Output × Session} (a, s) (returns output, s')
unfolding block
alarm-returns t env (returns x) s s' output h = h
alarm-returns t env (raises x) s s' output h = absurd (ground arith)
alarm-returns t env stops s s' output h = absurd (ground arith)

protected-returns :
    (t : Host) (env : SubmitEnv) (n : ℕ) (prompt : String) (fresh : Bool) (v : Option Settings)
    (thread : Option Json) (s s' : Session) (output : Output)
    → protected t env n prompt fresh v thread s ≡ (returns output, s')
    → Received t env n s' output × Grows s.files s'.files
unfolding protected
protected-returns t env n prompt fresh (some v) (some thread) s s' output h =
    let r = attempt t env n v prompt fresh thread s in
    attempt-returns t env n v prompt fresh thread s s' output
      (alarm-returns t env r.0 r.1 s' output h)
protected-returns t env n prompt fresh (some v) none s s' output h =
    let bad = alarm-returns t env (raises type_error) s s' output h in absurd (ground arith)
protected-returns t env n prompt fresh none thread s s' output h =
    let bad = alarm-returns t env (raises type_error) s s' output h in absurd (ground arith)

numbered-Recorded :
    (t : Host) (env : SubmitEnv) (prompt : String) (fresh : Bool) (thread : Json) (s s' : Session)
    (output : Output)
    → s.thread ≡ some thread
    → numbered t env prompt fresh s ≡ (returns output, s')
    → HasText t.codec (input s.sequence source) (source_record thread prompt fresh) s'.files
      × Received t env s.sequence s' output
unfolding numbered write
numbered-Recorded t env prompt fresh thread s s' output at h =
    let value = source_record (thread_or_null t env s.thread) prompt fresh in
    let (done, s1, first, h1) =
      >>=-eq-returns (write t env.source_write (input s.sequence source) value) _ s h in
    let (w, there, same_text) =
      install-HasText t.codec env.source_write (input s.sequence source) value s.files s1.files
        (ap (λ (r : Answer (Unit {0}) × Session). (r.0, r.1.files)) first) in
    let (received, grows) =
      protected-returns t env s.sequence prompt fresh s.settings s.thread s1 s' output h1 in
    let same_value : value ≡ source_record thread prompt fresh =
      ap (λ x. source_record (thread_or_null t env x) prompt fresh) at in
    (
      (w, grows (input s.sequence source) w there, same_text ∙ ap t.codec.print same_value),
      received,
    )

-- A submission that returns an answer has recorded the prompt, with the thread of the session, and
-- a completion on the thread that the session is left on, of the answer's own turn, with the status
-- "completed"; and the answer is the text that the native Stop of that turn left in its verified
-- file.
pub submit-Recorded :
    (t : Host) (env : SubmitEnv) (prompt : String) (fresh : Bool) (s s' : Session) (output : Output)
    → submit t env prompt fresh s ≡ (returns output, s')
    → Recorded t env prompt fresh s s' output
unfolding submit
submit-Recorded t env prompt fresh s s' output h =
    elim (Bool-cases (s.blocked || no_thread s.thread)) [
      | inl refused ↦ absurd (ground arith)
      | inr accepts ↦ elim (Option-cases s.thread) [
        | inl missing ↦ absurd (ground arith)
        | inr (thread, at) ↦
            let (recorded, received) =
              numbered-Recorded t env prompt fresh thread (record s { sequence = suc s.sequence })
                s' output at (ground arith) in
            ((thread, at, recorded), received)
      ]
    ]
