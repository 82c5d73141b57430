-- ===== src/Rollover/Reconcile.antt =====
-- Positive-only reconciliation of a rollover (crg/recovery.py). A readback is the typed part of the
-- thread/read and thread/list responses that the code looks at; a response of another shape raises,
-- and a turn's identifier is a text.
use context_rollover_guard.Prelude.{
  ℕ, zero, suc, String, Bool, true, false, Option, none, some, List, [], ◌∷◌, ◌++◌, ◌&&◌, ◌||◌, not,
  str_eq, any, is_some, if◌then◌else◌, Result, ok, err,
}
use context_rollover_guard.Json.{Json, str, same, Members, end, member}
use context_rollover_guard.Errors.{Exc, transaction_error}
use context_rollover_guard.Session.{Platform, State, archiving, forwarding, starting, preparing}
use context_rollover_guard.Settings.{verify_new_thread}
use context_rollover_guard.Rollover.Effects.{
  Journal, M, returns, raises, ◌>>=◌, ◌>>◌, pure, lift, write, call, Fate, Reply, Accepted,
  ForwardIntent, Outcome, thread_read, thread_list,
}
use context_rollover_guard.Rollover.Checks.{thread_id_of, Site, Context, context}

-- One part of a message: its type and text, and whether it has no key but type, text and
-- text_elements.
pub record Content : Type 0 where
  pub kind : Option String
  pub text : Option String
  pub known_keys : Bool

pub record Item : Type 0 where
  pub kind : Option String
  pub client_id : Option String
  pub content : List Content

pub record Turn : Type 0 where
  pub id : Option String
  pub status : Option String
  pub items : List Item

pub record Thread : Type 0 where
  pub id : Json
  pub cwd : String
  pub turns : List Turn

abbrev pub is_text : String → Option String → Bool
is_text s none = false
is_text s (some t) = str_eq t s

-- `item.get('type') == 'userMessage' and item.get('clientId') == client_id`
abbrev pub is_submission : String → Item → Bool
is_submission client_id i = is_text "userMessage" i.kind && is_text client_id i.client_id

unfoldable pub in_items : String → Turn → List Item → List (Turn × Item)
in_items client_id t [] = []
in_items client_id t (i ∷ is) =
    let rest = in_items client_id t is in if is_submission client_id i then (t, i) ∷ rest else rest

-- The comprehension over every turn and item.
unfoldable pub matches : String → List Turn → List (Turn × Item)
matches client_id [] = []
matches client_id (t ∷ ts) = in_items client_id t t.items ++ matches client_id ts

-- The content is the prompt's text and nothing else.
abbrev pub carries : String → List Content → Bool
carries prompt (c ∷ []) = is_text "text" c.kind && is_text prompt c.text && c.known_keys
carries prompt _ = false

abbrev pub accepted_status : Option String → Bool
accepted_status none = false
accepted_status (some s) = str_eq s "inProgress" || str_eq s "completed"

-- The result of a reconciliation or of a status query.
pub data Verdict : Type 0 where
  confirmed : Accepted → Verdict
  archive_confirmed : Verdict
  no_known_intent absent_or_duplicated content_mismatch turn_not_accepted archive_unconfirmed :
      Verdict
  pending_start pending_forward pending_archive settings_mismatch : Verdict
  committed_as : Outcome → Verdict
  reached : State → Verdict

-- `turn.get('id')` as a truth value
abbrev turn_id_of : Option String → Option String
turn_id_of none = none
turn_id_of (some s) = if str_eq s "" then none else some s

abbrev receipt : Context → Json → String → Accepted
receipt c new id = record {
  thread_id = new;
  turn_id = id;
  client_message_id = c.prepared.client_message_id;
  prompt_sha256 = c.prepared.prompt_sha256;
  source = "positive thread/read reconciliation";
}

-- The one match decides: the receipt to write, or the verdict.
unfoldable pub judge : Context → Json → List (Turn × Item) → Result Verdict Accepted
judge c new ((turn, i) ∷ []) =
    if not (carries c.prompt i.content)
    then err content_mismatch
    else if not (accepted_status turn.status)
    then err turn_not_accepted
    else (elim (turn_id_of turn.id) [
      | none ↦ err turn_not_accepted
      | some id ↦ ok (receipt c new id)
    ])
judge c new _ = err absent_or_duplicated

unfoldable pub record_receipt : Fate → Result Verdict Accepted → M Verdict
record_receipt fate (err v) w = (returns v, w)
record_receipt fate (ok a) w =
    (write fate (λ j. record j { accepted = some a }) >> pure (confirmed a)) w

abbrev raise_when : Bool → M (Unit {0})
raise_when true w = (raises transaction_error, w)
raise_when false w = (returns tt, w)

unfoldable pub read_back :
    Platform → Context → ForwardIntent → Members → Reply Thread → Fate → M Verdict
read_back p c intent started reply fate = do
  verified ← lift (verify_new_thread p c.prepared.settings started)
  tid ← lift (thread_id_of started)
  raise_when (same tid (str c.prepared.source.thread_id) || not (same intent.new_thread_id tid))
  native ← call (thread_read tid) reply
  raise_when (not (same native.id tid) || not (str_eq native.cwd c.prepared.source.cwd))
  record_receipt fate (judge c tid (matches c.prepared.client_message_id native.turns))

unfoldable pub reconcile_in : Platform → Context → Reply Thread → Fate → M Verdict
reconcile_in p c reply fate w = elim w.journal.accepted [
  | some a ↦ (returns (confirmed a), w)
  | none ↦ elim w.journal.forward_intent [
    | none ↦ (returns no_known_intent, w)
    | some intent ↦ elim w.journal.started [
      | none ↦ (returns no_known_intent, w)
      | some started ↦ read_back p c intent started reply fate w
    ]
  ]
]

unfoldable pub with_context {ℓ} : {A : Type ℓ} → Result Exc Context → (Context → M A) → M A
with_context (err e) f w = (raises e, w)
with_context (ok c) f w = f c w

unfoldable pub reconcile_forward : Platform → Site → Reply Thread → Fate → M Verdict
reconcile_forward p site reply fate w =
    with_context (context p site w.journal) (λ c. reconcile_in p c reply fate) w

-- A dictionary that was read is taken for missing where it is empty; the other records never are.
unfoldable pub filled : Option Members → Bool
filled none = false
filled (some end) = false
filled (some (member key value rest)) = true

-- The state that the last receipts of the journal show.
abbrev reached_state : Journal → State
reached_state j =
    if is_some j.accepted
    then archiving
    else if filled j.started
    then forwarding
    else if is_some j.start_intent
    then starting
    else preparing

-- transaction_status, once the context is checked
unfoldable pub status_of : Journal → Verdict
status_of j = elim j.committed [
  | some o ↦ committed_as o
  | none ↦
      if is_some j.archive_intent && not (is_some j.archived)
      then pending_archive
      else if is_some j.forward_intent && not (is_some j.accepted)
      then pending_forward
      else if is_some j.start_intent && not (filled j.started)
      then pending_start
      else if j.recoveries.settings
      then settings_mismatch
      else reached (reached_state j)
]

unfoldable pub transaction_status : Platform → Site → M Verdict
transaction_status p site w =
    with_context (context p site w.journal) (λ c u. (returns (status_of u.journal), u)) w

-- One page of thread/list: the identities and directories of the threads, and the next cursor.
pub record Page : Type 0 where
  pub threads : List (Option String × Option String)
  pub next : Option String

abbrev pub is_source : Context → Option String × Option String → Bool
is_source c (id, cwd) = is_text c.prepared.source.thread_id id && is_text c.prepared.source.cwd cwd

abbrev pub cursor_json : Option String → Option Json
cursor_json none = none
cursor_json (some s) = some (str s)

-- `not cursor or cursor in seen`
abbrev exhausted : Option String → List String → Bool
exhausted none seen = true
exhausted (some s) seen = str_eq s "" || any (str_eq s) seen

abbrev pub cursor_of : Option String → List String → List String
cursor_of none seen = seen
cursor_of (some s) seen = s ∷ seen

-- One page: the source is listed, the list ends, or the search goes on.
unfoldable pub on_page : Context → Fate → List String → Page → M Verdict → M Verdict
on_page c fate seen page rest =
    if any (is_source c) page.threads
    then (write fate (λ j. record j { archived = some c.prepared.source.thread_id })
        >> pure archive_confirmed)
    else if exhausted page.next seen
    then pure archive_unconfirmed
    else rest

-- The loop over the pages; `pages` gives the reply to each request, by the rounds left.
unfoldable pub search_pages :
    Context → Fate → (ℕ → Reply Page) → ℕ → Option String → List String → M Verdict
search_pages c fate pages zero cursor seen = pure archive_unconfirmed
search_pages c fate pages (suc rounds) cursor seen = do
  page ← call (thread_list (cursor_json cursor)) (pages rounds)
  on_page c fate seen page (search_pages c fate pages rounds page.next (cursor_of page.next seen))

unfoldable pub archive_in : Context → Fate → (ℕ → Reply Page) → ℕ → M Verdict
archive_in c fate pages max_pages w = elim w.journal.accepted [
  | none ↦ (returns no_known_intent, w)
  | some a ↦ elim w.journal.archive_intent [
    | none ↦ (returns no_known_intent, w)
    | some intent ↦ elim w.journal.archived [
      | some old ↦ (returns archive_confirmed, w)
      | none ↦ search_pages c fate pages max_pages none [] w
    ]
  ]
]

unfoldable pub reconcile_archive : Platform → Site → Fate → (ℕ → Reply Page) → ℕ → M Verdict
reconcile_archive p site fate pages max_pages w =
    with_context (context p site w.journal) (λ c. archive_in c fate pages max_pages) w
