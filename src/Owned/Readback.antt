-- ===== src/Owned/Readback.antt =====
-- What `reconcile_run` (crg/owned_recovery.py) reads in the response to thread/read, which is any
-- document.
use context_rollover_guard.Rollover.Checks.{members_of}
use context_rollover_guard.Settings.{item, get_or_null}
use context_rollover_guard.Errors.{type_error, Exc}
use context_rollover_guard.Prelude.{
  String, Bool, true, false, ◌&&◌, none, some, List, [], ◌∷◌, ◌++◌, str_eq, if◌then◌else◌, any,
  Result, ok, err, ◌>>=◌,
}
use context_rollover_guard.Json.{Json, Items, Members, str, arr, nil, cons, end, member, get, same}

-- The elements of a list of dictionaries; on any other value the code's accesses raise.
unfoldable pub dicts : Items → Result Exc (List Members)
dicts nil = ok []
dicts (cons v vs) = do m ← members_of v; ms ← dicts vs; ok (m ∷ ms)

abbrev pub list_of : Json → Result Exc (List Members)
list_of (arr xs) = dicts xs
list_of _ = err type_error

abbrev pub items_in : Members → Result Exc (List Members)
items_in turn = item "items" turn >>= list_of

-- A user message with the client's identifier.
abbrev pub is_submitted : Json → Members → Bool
is_submitted client_id i =
    same (get_or_null "type" i) (str "userMessage") && same (get_or_null "clientId" i) client_id

unfoldable pub submissions : Json → Members → List Members → List (Members × Members)
submissions client_id turn [] = []
submissions client_id turn (i ∷ is) =
    let rest = submissions client_id turn is in
    if is_submitted client_id i then (turn, i) ∷ rest else rest

unfoldable pub all_submissions : Json → List Members → Result Exc (List (Members × Members))
all_submissions client_id [] = ok []
all_submissions client_id (turn ∷ turns) = do
  is ← items_in turn
  rest ← all_submissions client_id turns
  ok (submissions client_id turn is ++ rest)

-- `set(content) - {'type', 'text', 'text_elements'}` is empty
abbrev known_key : String → Bool
known_key k = any (str_eq k) ("type" ∷ "text" ∷ "text_elements" ∷ [])

unfoldable pub known_keys : Members → Bool
known_keys end = true
known_keys (member k v m) = known_key k && known_keys m

-- `item.get('content', [])`
abbrev pub content_of : Members → Result Exc (List Members)
content_of i = elim (get "content" i) [ none ↦ ok [] | some v ↦ list_of v ]

-- The content is the text alone.
unfoldable pub has_text : Json → List Members → Bool
has_text text (c ∷ []) =
    same (get_or_null "type" c) (str "text") && same (get_or_null "text" c) text && known_keys c
has_text text _ = false

abbrev pub is_final : Members → Bool
is_final i =
    same (get_or_null "type" i) (str "agentMessage")
    && same (get_or_null "phase" i) (str "final_answer")

-- The texts of the final answers among the items.
unfoldable pub final_texts : List Members → Result Exc (List Json)
final_texts [] = ok []
final_texts (i ∷ is) = do
  rest ← final_texts is
  if is_final i then (item "text" i >>= λ text. ok (text ∷ rest)) else ok rest

-- `finals != [answer]`, negated
unfoldable pub only_text : String → List Json → Bool
only_text answer (v ∷ []) = same v (str answer)
only_text answer _ = false
