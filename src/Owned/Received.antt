-- ===== src/Owned/Received.antt =====
-- The completion that a submission waits for, and the answer that it returns.
use context_rollover_guard.Errors.{runtime_error}
use context_rollover_guard.Owned.Kept.{install-HasText, HasText}
use context_rollover_guard.Owned.Calls.{lift-eq-returns, >>=-eq-returns}
use context_rollover_guard.Settings.{get_or_null}
use context_rollover_guard.Session.{SessionState}
use context_rollover_guard.Owned.Answer.{
  guard_of, answer_text, stored_state, Stores, stopped_at, Host,
}
use context_rollover_guard.Owned.Files.{Answer, lift, returns, completed, input}
use context_rollover_guard.Prelude.{if-eq-ok, raise_if-eq-ok, or_raise-eq-ok, >>-eq-ok}
use context_rollover_guard.Owned.Submit.{on_step, complete, finish, await_turn, SubmitEnv}
use context_rollover_guard.Owned.Events.{
  Step, text_is, params_of, has_key, turn_item, Arrival, Output, finished_answer, classify,
  finishes, skips, breaks, arrives,
}
use context_rollover_guard.Owned.Session.{write, emit, Session}
use context_rollover_guard.Prelude.{
  ℕ, ◌≡◌, sym, ap, ◌∙◌, subst, inl, inr, Bool, true, ◌&&◌, not, Option, none, some, List, [], ◌∷◌,
  arith, ok, or_raise, >>=-eq-ok, Bool-cases,
}
use context_rollover_guard.Json.{Json, Members, str, obj, same}

-- What a returned answer stands on: a recorded completion of its turn on its thread, and the state
-- that the native Stop of that turn left.
pub record Received (t : Host) (env : SubmitEnv) (n : ℕ) (s' : Session) (output : Output)
    : Type 0 where
  pub receipt : Members
  pub id : Json
  pub status : Json
  pub state : SessionState
  pub recorded : HasText t.codec (input n completed) (obj receipt) s'.files
  pub on_thread : same (get_or_null "threadId" receipt) output.thread_id ≡ true
  pub has_id : turn_item "id" receipt ≡ ok id
  pub of_turn : same id output.turn_id ≡ true
  pub has_status : turn_item "status" receipt ≡ ok status
  pub is_complete : same status (str "completed") ≡ true
  pub stored : stored_state t env.after output.thread_id ≡ ok (some state)
  pub stopped : stopped_at output.turn_id (some state) ≡ some state
  pub answered : answer_text t state ≡ ok output.text
  pub stays : s'.thread ≡ some output.thread_id

-- The events that `complete` takes as the turn's end.
classify-finishes :
    (has_approver : Bool) (thread turn : Json) (a : Arrival) (p : Members)
    → classify has_approver thread turn a ≡ ok (finishes p)
    → (same (get_or_null "threadId" p) thread ≡ true)
      × ((id : Json) × (turn_item "id" p ≡ ok id) × (same id turn ≡ true))
unfolding classify
classify-finishes has_approver thread turn (breaks e) p h = absurd (ground arith)
classify-finishes has_approver thread turn (arrives event answered) p h =
    elim (if-eq-ok (has_key "id" event && has_key "method" event) _ _ h) [
      | inl (asks, e) ↦
          let (done, e1) = >>-eq-ok answered _ e in
          absurd (elim (Bool-cases has_approver) [ inl a ↦ ground arith | inr b ↦ ground arith ])
      | inr (tells, e) ↦
          let (q, params, e1) = >>=-eq-ok (params_of event) _ e in
          elim (if-eq-ok (not (same (get_or_null "threadId" q) thread)) _ _ e1) [
            | inl (other, e2) ↦ absurd (ground arith)
            | inr (mine, e2) ↦
                elim (if-eq-ok (same (get_or_null "method" event) (str "turn/completed")) _ _ e2) [
                  | inr (other, e3) ↦ absurd (ground arith)
                  | inl (ended, e3) ↦
                      let (id, has_id, e4) = >>=-eq-ok (turn_item "id" q) _ e3 in
                      elim (Bool-cases (same id turn)) [
                        | inr other ↦ absurd (ground arith)
                        | inl same_turn ↦
                            let same_event : q ≡ p = ground arith in
                            (
                              subst (λ x. same (get_or_null "threadId" x) thread ≡ true) same_event
                                  (ground arith),
                              (
                                id,
                                subst (λ x. turn_item "id" x ≡ ok id) same_event has_id,
                                same_turn,
                              ),
                            )
                      ]
                ]
          ]
    ]

stopped_at-some :
    (turn : Json) (o : Option SessionState) (state : SessionState)
    → stopped_at turn o ≡ some state
    → o ≡ some state
unfolding stopped_at
stopped_at-some turn none state h = absurd (ground arith)
stopped_at-some turn (some s) state h = ground arith

-- The last tests, where they pass.
finished_answer-ok :
    (t : Host) (stores : Stores) (thread turn : Json) (p : Members) (output : Output)
    → finished_answer t stores thread turn p ≡ ok output
    → (output.thread_id ≡ thread)
      × (output.turn_id ≡ turn)
      × ((status : Json) × (turn_item "status" p ≡ ok status)
          × (same status (str "completed") ≡ true))
      × ((state : SessionState) × (stored_state t stores thread ≡ ok (some state))
          × (stopped_at turn (some state) ≡ some state)
          × (answer_text t state ≡ ok output.text))
unfolding finished_answer
finished_answer-ok t stores thread turn p output h =
    let (status, has_status, h1) = >>=-eq-ok (turn_item "status" p) _ h in
    let (complete_turn, h2) =
      raise_if-eq-ok (not (text_is "completed" status)) runtime_error _ h1 in
    let (o, stored, h3) = >>=-eq-ok (stored_state t stores thread) _ h2 in
    let (state, stopped, h4) = >>=-eq-ok (or_raise (stopped_at turn o) runtime_error) _ h3 in
    let (text, answered, h5) = >>=-eq-ok (answer_text t state) _ h4 in
    let (guard, has_guard, h6) = >>=-eq-ok (guard_of state) _ h5 in
    let there = or_raise-eq-ok (stopped_at turn o) runtime_error stopped in
    let same_state = stopped_at-some turn o state there in
    (
      ground arith,
      ground arith,
      (status, has_status, ground arith),
      (
        state,
        stored ∙ ap ok same_state,
        subst (λ x. stopped_at turn x ≡ some state) same_state there,
        ground arith,
      ),
    )

module _ (t : Host) (env : SubmitEnv) (n : ℕ) (thread turn : Json) where
  finish-Received :
      (p : Members) (s s' : Session) (output : Output) (id : Json)
      → s.thread ≡ some thread
      → same (get_or_null "threadId" p) thread ≡ true
      → turn_item "id" p ≡ ok id
      → same id turn ≡ true
      → finish t env n thread turn p s ≡ (returns output, s')
      → Received t env n s' output
  unfolding finish write emit
  finish-Received p s s' output id at on_thread has_id of_turn h =
      let (done, s1, first, h1) =
        >>=-eq-returns (write t env.completed_write (input n completed) (obj p)) _ s h in
      let (result, s2, judged, h2) =
        >>=-eq-returns (lift (finished_answer t env.after thread turn p)) _ s1 h1 in
      let (answer, same_session) =
        lift-eq-returns (finished_answer t env.after thread turn p) s1 judged in
      let same_output : result ≡ output = ground arith in
      let (
        same_thread,
        same_turn,
        (status, has_status, is_complete),
        (state, stored, stopped, answered'),
      ) =
        finished_answer-ok t env.after thread turn p output (answer ∙ ap ok same_output) in
      let same_files : s1.files ≡ s'.files =
        ap (λ (x : Session). x.files) same_session
        ∙ ap (λ (r : Answer Output × Session). r.1.files) h2 in
      let kept_thread : s.thread ≡ s'.thread =
        ap (λ (r : Answer (Unit {0}) × Session). r.1.thread) first
        ∙ (ap (λ (x : Session). x.thread) same_session
            ∙ ap (λ (r : Answer Output × Session). r.1.thread) h2) in
      record {
        receipt = p;
        id = id;
        status = status;
        state = state;
        recorded = subst (HasText t.codec (input n completed) (obj p)) same_files (
            install-HasText t.codec env.completed_write (input n completed) (obj p) s.files s1.files
              (ap (λ (r : Answer (Unit {0}) × Session). (r.0, r.1.files)) first));
        on_thread =
            subst (λ x. same (get_or_null "threadId" p) x ≡ true) (sym same_thread) on_thread;
        has_id = has_id;
        of_turn = subst (λ x. same id x ≡ true) (sym same_turn) of_turn;
        has_status = has_status;
        is_complete = is_complete;
        stored = subst (λ x. stored_state t env.after x ≡ ok (some state)) (sym same_thread) stored;
        stopped = subst (λ x. stopped_at x (some state) ≡ some state) (sym same_turn) stopped;
        answered = answered';
        stays = sym kept_thread ∙ (at ∙ ap some (sym same_thread));
      }

  on_step-Received :
      (a : Arrival) (rest : List Arrival) (step : Step) (s s' : Session) (output : Output)
      → s.thread ≡ some thread
      → classify env.has_approver thread turn a ≡ ok step
      → on_step t env n thread turn (await_turn t env n thread turn rest) step s
        ≡ (returns output, s')
      → (await_turn t env n thread turn rest s ≡ (returns output, s') → Received t env n s' output)
      → Received t env n s' output
  on_step-Received a rest skips s s' output at classified h later = later h
  on_step-Received a rest (finishes p) s s' output at classified h later =
      let (on_thread, (id, has_id, of_turn)) =
        classify-finishes env.has_approver thread turn a p classified in
      finish-Received p s s' output id at on_thread has_id of_turn h

  await_turn-Received :
      (arrivals : List Arrival) (s s' : Session) (output : Output)
      → s.thread ≡ some thread
      → await_turn t env n thread turn arrivals s ≡ (returns output, s')
      → Received t env n s' output
  unfolding await_turn
  await_turn-Received [] s s' output at h = absurd (ground arith)
  await_turn-Received (a ∷ rest) s s' output at h =
      let (step, s1, looked, h1) =
        >>=-eq-returns (lift (classify env.has_approver thread turn a)) _ s h in
      let (classified, same_session) =
        lift-eq-returns (classify env.has_approver thread turn a) s looked in
      on_step-Received a rest step s s' output at classified
        (subst
          (λ x.
            on_step t env n thread turn (await_turn t env n thread turn rest) step x
            ≡ (returns output, s'))
          (sym same_session) h1)
        (λ goes. await_turn-Received rest s s' output at goes)

  pub complete-Received :
      (s s' : Session) (output : Output)
      → s.thread ≡ some thread
      → complete t env n turn s ≡ (returns output, s')
      → Received t env n s' output
  unfolding complete
  complete-Received s s' output at h =
      await_turn-Received env.arrivals s s' output at (ground arith)
