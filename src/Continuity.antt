-- ===== src/Continuity.antt =====
-- The continuation policy and the test that an owned thread is quiet (crg/continuity.py).
pub mod Quiet
use context_rollover_guard.Prelude.{
  String, Bool, true, false, ◌&&◌, ◌||◌, Option, none, some, List, [], ◌∷◌, all, any, str_eq,
  if◌then◌else◌,
}

pub data Policy : Type 0 where
  observe warn handoff_ready migrate_explicit recovery_required : Policy

-- The keyword arguments of `decide`.
pub record Signals : Type 0 where
  pub ambiguous : Bool
  pub explicit_fresh : Bool
  pub handoff_done : Bool
  pub native_healthy : Bool
  pub high_pressure : Bool

unfoldable pub decide : Signals → Policy
decide s =
    if s.ambiguous
    then recovery_required
    else if s.explicit_fresh
    then migrate_explicit
    else if s.handoff_done
    then handoff_ready
    else if s.native_healthy
    then observe
    else if s.high_pressure
    then warn
    else observe

-- One entry of `tools` or `children`: a dictionary with its `state`, or something else.
pub data Entry : Type 0 where
  entry : Option String → Entry
  malformed : Entry

-- What `read_activity` returned. A list that is missing, or no list, is `none`.
pub record Activity : Type 0 where
  pub thread_id : Option String
  pub complete : Bool
  pub turn_state : Option String
  pub tools : Option (List Entry)
  pub children : Option (List Entry)

abbrev pub one_of : List String → Option String → Bool
one_of names none = false
one_of names (some s) = any (str_eq s) names

abbrev pub finished_turns : List String
finished_turns = "completed" ∷ "failed" ∷ "cancelled" ∷ "idle" ∷ []

abbrev pub finished_items : List String
finished_items = "completed" ∷ "failed" ∷ "cancelled" ∷ "detached" ∷ []

abbrev pub settled : Entry → Bool
settled (entry s) = one_of finished_items s
settled malformed = false

abbrev pub all_settled : Option (List Entry) → Bool
all_settled none = false
all_settled (some items) = all settled items

-- `none`: the client has no reader, or the reader raised.
unfoldable pub quiet_point : Option Activity → String → Bool
quiet_point none thread_id = false
quiet_point (some a) thread_id =
    if one_of (thread_id ∷ []) a.thread_id && a.complete
    then (if one_of finished_turns a.turn_state
        then all_settled a.tools && all_settled a.children
        else false)
    else false
