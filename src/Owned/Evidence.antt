-- ===== src/Owned/Evidence.antt =====
-- What `reconcile_run` stands on when it records a completion, and what it sends.
use context_rollover_guard.Owned.Readback.{
  only_text, final_texts, items_in, has_text, content_of, all_submissions,
}
use context_rollover_guard.Owned.Recovery.{Query}
use context_rollover_guard.Settings.{item}
use context_rollover_guard.Session.{SessionState}
use context_rollover_guard.Owned.Answer.{answer_text, stored_state, Stores, Host, stopped_at}
use context_rollover_guard.Prelude.{if-eq-ok}
use context_rollover_guard.Owned.Reconcile.{
  native_turns, judge_final, judge_stop, judge_status, compared_turn, verdict_of, judge_match,
  judge,
}
use context_rollover_guard.Prelude.{
  String, ◌≡◌, refl, sym, ap, ◌∙◌, subst, inl, inr, true, false, not, Option, none, some, List, [],
  ◌∷◌, arith, ok, >>=-eq-ok, Bool-cases, Option-cases,
}
use context_rollover_guard.Json.{Json, Members, str, same}

-- The native Stop of a turn: the stored state is of that turn, and its pending answer is the one
-- final answer among the turn's items.
pub record Shown (t : Host) (turn : Members) (state : SessionState) : Type 0 where
  pub id : Json
  pub answer : String
  pub items : List Members
  pub finals : List Json
  pub has_id : item "id" turn ≡ ok id
  pub stopped : stopped_at id (some state) ≡ some state
  pub answered : answer_text t state ≡ ok answer
  pub has_items : items_in turn ≡ ok items
  pub has_finals : final_texts items ≡ ok finals
  pub same_answer : only_text answer finals ≡ true

-- The response of thread/read and the native Stop that confirm a turn for the open input.
pub record Confirmed (t : Host) (stores : Stores) (q : Query) (response turn : Members)
    : Type 0 where
  pub turns : List Members
  pub message : Members
  pub content : List Members
  pub text : Json
  pub status : Json
  pub state : SessionState
  pub read : native_turns t q.thread response ≡ ok turns
  pub only : all_submissions q.client_id turns ≡ ok ((turn, message) ∷ [])
  pub made : item "text" q.made ≡ ok text
  pub carried : content_of message ≡ ok content
  pub exact : has_text text content ≡ true
  pub accepted :
      (a : Json)
      → q.accepted_turn ≡ some a
      → (x : Json) × (item "id" turn ≡ ok x) × (same x a ≡ true)
  pub has_status : item "status" turn ≡ ok status
  pub is_complete : same status (str "completed") ≡ true
  pub stored : stored_state t stores q.thread ≡ ok (some state)
  pub shown : Shown t turn state

stopped_at-same :
    (id : Json) (state s : SessionState) → stopped_at id (some state) ≡ some s → s ≡ state
unfolding stopped_at
stopped_at-same id state s h = ground arith

compared_turn-same :
    (o : Option Json) (turn : Members)
    → compared_turn o turn ≡ ok false
    → (a : Json) → o ≡ some a
    → (x : Json) × (item "id" turn ≡ ok x) × (same x a ≡ true)
compared_turn-same none turn h a e = cc
compared_turn-same (some b) turn h a e =
    let (x, there, h1) = >>=-eq-ok (item "id" turn) _ h in (x, there, ground arith)

judge_final-Shown :
    (t : Host) (turn result : Members) (state : SessionState) (id : Json)
    → item "id" turn ≡ ok id
    → stopped_at id (some state) ≡ some state
    → judge_final t turn state ≡ ok (ok result)
    → (result ≡ turn) × Shown t turn state
unfolding judge_final
judge_final-Shown t turn result state id has_id stopped h =
    let (answer, answered, h1) = >>=-eq-ok (answer_text t state) _ h in
    let (items, has_items, h2) = >>=-eq-ok (items_in turn) _ h1 in
    let (finals, has_finals, h3) = >>=-eq-ok (final_texts items) _ h2 in
    elim (Bool-cases (only_text answer finals)) [
      | inr other ↦ absurd (ground arith)
      | inl same_answer ↦ (
        ground arith,
        record {
          id = id;
          answer = answer;
          items = items;
          finals = finals;
          has_id = has_id;
          stopped = stopped;
          answered = answered;
          has_items = has_items;
          has_finals = has_finals;
          same_answer = same_answer;
        },
      )
    ]

judge_stop-Shown :
    (t : Host) (turn result : Members) (o : Option SessionState)
    → judge_stop t turn o ≡ ok (ok result)
    → (state : SessionState) × (o ≡ some state) × (result ≡ turn) × Shown t turn state
unfolding judge_stop
judge_stop-Shown t turn result none h = absurd (ground arith)
judge_stop-Shown t turn result (some state) h =
    let (id, has_id, h1) = >>=-eq-ok (item "id" turn) _ h in
    elim (Option-cases (stopped_at id (some state))) [
      | inl missing ↦ absurd (ground arith)
      | inr (s, there) ↦
          let same_state : s ≡ state = stopped_at-same id state s there in
          let (same_turn, shown) =
            judge_final-Shown t turn result state id has_id (there ∙ ap some same_state)
              (subst (λ x. judge_final t turn x ≡ ok (ok result)) same_state (ground arith)) in
          (state, refl, same_turn, shown)
    ]

-- The tests of the one match, where they all pass.
match-Confirmed :
    (t : Host) (stores : Stores) (q : Query) (response : Members) (turns : List Members)
    (turn message result : Members)
    → native_turns t q.thread response ≡ ok turns
    → all_submissions q.client_id turns ≡ ok ((turn, message) ∷ [])
    → judge_match t stores q turn message ≡ ok (ok result)
    → (result ≡ turn) × Confirmed t stores q response turn
unfolding judge_match judge_status
match-Confirmed t stores q response turns turn message result read only h =
    let (content, carried, h1) = >>=-eq-ok (content_of message) _ h in
    let (text, made, h2) = >>=-eq-ok (item "text" q.made) _ h1 in
    elim (if-eq-ok (not (has_text text content)) _ _ h2) [
      | inl (other, e) ↦ absurd (ground arith)
      | inr (exact, h3) ↦
          let (differs, compared, h4) = >>=-eq-ok (compared_turn q.accepted_turn turn) _ h3 in
          elim (if-eq-ok differs _ _ h4) [
            | inl (other, e) ↦ absurd (ground arith)
            | inr (same_turn, h5) ↦
                let (status, has_status, h6) = >>=-eq-ok (item "status" turn) _ h5 in
                elim (if-eq-ok (not (same status (str "completed"))) _ _ h6) [
                  | inl (other, e) ↦ absurd (ground arith)
                  | inr (is_complete, h7) ↦
                      let (o, stored, h8) = >>=-eq-ok (stored_state t stores q.thread) _ h7 in
                      let (state, same_one, same_turn', shown) =
                        judge_stop-Shown t turn result o h8 in
                      (
                        same_turn',
                        record {
                          turns = turns;
                          message = message;
                          content = content;
                          text = text;
                          status = status;
                          state = state;
                          read = read;
                          only = only;
                          made = made;
                          carried = carried;
                          exact = ground arith;
                          accepted =
                              compared_turn-same q.accepted_turn turn (compared ∙ ap ok same_turn);
                          has_status = has_status;
                          is_complete = ground arith;
                          stored = stored ∙ ap ok same_one;
                          shown = shown;
                        },
                      )
                ]
          ]
    ]

judge-Confirmed :
    (t : Host) (stores : Stores) (q : Query) (response : Members) (turns : List Members)
    (found : List (Members × Members)) (result : Members)
    → native_turns t q.thread response ≡ ok turns
    → all_submissions q.client_id turns ≡ ok found
    → judge t stores q found ≡ ok (ok result)
    → Confirmed t stores q response result
unfolding judge
judge-Confirmed t stores q response turns [] result read only h = absurd (ground arith)
judge-Confirmed t stores q response turns ((turn, message) ∷ []) result read only h =
    let (same_turn, confirmed) =
      match-Confirmed t stores q response turns turn message result read only h in
    subst (Confirmed t stores q response) (sym same_turn) confirmed
judge-Confirmed t stores q response turns (x ∷ (y ∷ rest)) result read only h =
    absurd (ground arith)

pub verdict_of-Confirmed :
    (t : Host) (stores : Stores) (q : Query) (response turn : Members)
    → verdict_of t stores q response ≡ ok (ok turn)
    → Confirmed t stores q response turn
unfolding verdict_of
verdict_of-Confirmed t stores q response turn h =
    let (turns, read, h1) = >>=-eq-ok (native_turns t q.thread response) _ h in
    let (found, all_found, h2) = >>=-eq-ok (all_submissions q.client_id turns) _ h1 in
    judge-Confirmed t stores q response turns found turn read all_found h2
