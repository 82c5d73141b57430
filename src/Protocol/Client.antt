-- ===== src/Protocol/Client.antt =====
-- The matching of responses to requests (crg/appserver.py, `AppServerClient`). The lock makes each
-- operation one step, and so are taking a future out and ending it; a request's own number stands for
-- its future, and `client_error` for ProtocolError. What the processes write and
-- when a wait ends is outside the model: the reader is given frames, and a wait may end at any time.
use context_rollover_guard.Prelude.Int.{pos}
use context_rollover_guard.Errors.{client_error, Exc}
use context_rollover_guard.Prelude.{
  ℕ, suc, ◌≡◌, Bool, true, false, Option, none, some, List, [], ◌∷◌, ◌++◌, ltb, ◌==◌, if◌then◌else◌,
  length, Result, ok, err,
}
use context_rollover_guard.Json.{Json, Members, int, arr, obj, get, same}
use context_rollover_guard.Protocol.Schema.{has}

-- What ends a future.
pub data Fate : Type 0 where
  replied : Members → Fate
  unavailable : Fate

-- The reader thread: it reads, has recorded a failure, or has died of an exception that it does not
-- catch.
pub data Reader : Type 0 where
  reading : Reader
  failed : Reader
  died : Reader

pub record Client : Type 0 where
  pub counter : ℕ
  pub pending : List ℕ
  pub fates : List (ℕ × Fate)
  pub events : List Json
  pub reader : Reader

-- What `readline` gives: the end, a frame that is too long, incomplete or no JSON, or a value.
pub data Frame : Type 0 where
  eof : Frame
  unreadable : Frame
  value : Json → Frame

abbrev pub capacity : ℕ
capacity = 2048

abbrev pub fresh : Client
fresh = record { counter = 0; pending = []; fates = []; events = []; reader = reading }

abbrev pub has_failed : Reader → Bool
has_failed failed = true
has_failed _ = false

-- Lists and dictionaries are no keys.
abbrev pub is_unhashable : Json → Bool
is_unhashable (arr xs) = true
is_unhashable (obj m) = true
is_unhashable _ = false

-- self.pending.pop(id, None): the request that it finds, and what it leaves
unfoldable pub found : Json → List ℕ → Option ℕ
found id [] = none
found id (i ∷ is) = if same (int (pos i)) id then some i else found id is

unfoldable pub without : ℕ → List ℕ → List ℕ
without i [] = []
without i (j ∷ js) = if j == i then without i js else j ∷ without i js

unfoldable pub mark : List ℕ → List (ℕ × Fate) → List (ℕ × Fate)
mark [] fates = fates
mark (i ∷ is) fates = (i, unavailable) ∷ mark is fates

-- A new request: `self.counter += 1`, `self.pending[ident] = future`
unfoldable pub register : Client → Result Exc Client
register c = elim (has_failed c.reader) [
  | true ↦ err client_error
  | false ↦ ok (record c { counter = suc c.counter; pending = suc c.counter ∷ c.pending })
]

-- The end of the stream.
unfoldable pub break : Client → Client
break c = record c { pending = []; fates = mark c.pending c.fates; reader = failed }

unfoldable pub resolve : Option ℕ → Members → Client → Client
resolve none m c = c
resolve (some i) m c = record c { pending = without i c.pending; fates = (i, replied m) ∷ c.fates }

unfoldable pub deliver : Json → Members → Client → Client
deliver id m c =
    if is_unhashable id then record c { reader = died } else resolve (found id c.pending) m c

unfoldable pub enqueue : Json → Client → Client
enqueue event c =
    if ltb (length c.events) capacity then record c { events = c.events ++ event ∷ [] } else break c

unfoldable pub on_event : Members → Client → Client
on_event m c = elim (get "id" m) [
  | none ↦ enqueue (obj m) c
  | some id ↦ if has "method" m then enqueue (obj m) c else deliver id m c
]

-- One round of `_receive`
unfoldable pub receive : Frame → Client → Client
receive (value (obj m)) c = on_event m c
receive (value _) c = break c
receive eof c = break c
receive unreadable c = break c

-- The wait of a request ends without its response.
unfoldable pub forget : ℕ → Client → Client
forget i c = record c { pending = without i c.pending }

unfoldable pub fate_of : ℕ → List (ℕ × Fate) → Option Fate
fate_of i [] = none
fate_of i ((j, f) ∷ fates) = if j == i then some f else fate_of i fates

-- The end of `request`, by what its future has when the wait ends
pub data Ended : Type 0 where
  ambiguous : Ended
  rpc_error : Json → Ended
  malformed : Ended
  result : Json → Ended

unfoldable pub result_of : Members → Ended
result_of m = elim (get "error" m) [
  | some e ↦ rpc_error e
  | none ↦ elim (get "result" m) [ none ↦ malformed | some r ↦ result r ]
]

unfoldable pub ended_by : Option Fate → ℕ → Client → Ended × Client
ended_by (some (replied m)) i c = (result_of m, c)
ended_by (some unavailable) i c = (ambiguous, forget i c)
ended_by none i c = (ambiguous, forget i c)

unfoldable pub finish_request : ℕ → Client → Ended × Client
finish_request i c = ended_by (fate_of i c.fates) i c

-- next_event, where the wait ends
unfoldable pub taken : List Json → Client → Result Exc (Option Json) × Client
taken [] c = (if has_failed c.reader then err client_error else ok none, c)
taken (event ∷ rest) c = (ok (some event), record c { events = rest })

unfoldable pub next_event : Client → Result Exc (Option Json) × Client
next_event c = taken c.events c

-- One step of some thread.
pub data Step (c : Client) : Client → Type 0 where
  requests : (d : Client) → register c ≡ ok d → Step c d
  receives : (f : Frame) → c.reader ≡ reading → Step c (receive f c)
  ends : (i : ℕ) → Step c (finish_request i c).1
  -- `_send` fails, or the wait times out
  gives_up : (i : ℕ) → Step c (forget i c)
  takes : Step c (next_event c).1

pub data Reach (c : Client) : Client → Type 0 where
  here : Reach c c
  next : {d e : Client} → Reach c d → Step d e → Reach c e
