-- ===== src/Tests/StateStore.antt =====
-- A stored state and its successor.
use context_rollover_guard.Prelude.{
  String, ◌≡◌, refl, ◌⊎◌, false, Option, none, some, [], str_eq, ◌==◌, if◌then◌else◌, ok,
}
use context_rollover_guard.Json.{Json, int, str, obj, end, member, get, same}
use context_rollover_guard.Prelude.Int.{pos, ◌+ℤ◌}
use context_rollover_guard.Session.{
  SessionState, validate, workspace_id_of, same_state, within_unit, no_evidence,
}
use context_rollover_guard.Session.Dict.{dict_of}
use context_rollover_guard.StateStore.Codec.{
  Codec, envelope, encode, decode, decode_document, decode_payload, state_from, payload_of, unique,
  known_fields, named_state, named_mode,
}
use context_rollover_guard.StateStore.RoundTrip.{decode-encode}
use context_rollover_guard.StateStore.Store.{
  Disk, absent, bytes, Owner, completes, dies_after, decode_own, load, Change, decide, update,
  base_of, check_candidate, same_identity, advanced, carry_out, atomic, write,
}
use context_rollover_guard.StateStore.Atomic.{IsAtomic, update-IsAtomic}
use context_rollover_guard.StateStore.Legal.{Succeeds, update-Succeeds}
use context_rollover_guard.Tests.Session.{small, session}

abbrev old_state : SessionState
old_state = session

abbrev new_state : SessionState
new_state = record session { revision = some (pos 4); updated_at = "at"; model = some "m" }

abbrev document : SessionState → Json
document s = obj (
    member "format_version" (int (pos 1))
      (member "payload" (obj (dict_of s)) (member "sha256" (str "payload") end)))

abbrev file_name : Json → String
file_name (obj m) = elim (get "revision" m) [
  | some (int (pos n)) ↦ if n == 3 then "old" else "new"
  | _ ↦ "other"
]
file_name _ = "other"

abbrev printed : Json → String
printed (obj m) = elim (get "payload" m) [ none ↦ "payload" | some payload ↦ file_name payload ]
printed _ = "other"

abbrev parsed : String → Option Json
parsed raw =
    if str_eq raw "old"
    then some (document old_state)
    else if str_eq raw "new"
    then some (document new_state)
    else none

abbrev codec : Codec
codec = record { parse = parsed; print = printed }

decode-encode_example : decode small codec "now" "old" ≡ ok old_state
unfolding encode validate workspace_id_of within_unit envelope dict_of get unique
decode-encode_example = decode-encode small codec "now" old_state "old" refl refl refl refl

abbrev owner : Owner
owner = record { cwd = "/w"; session_id = "s" }

abbrev disk : Disk
disk = record { primary = bytes "old"; backup = absent; leftover = false; quarantine = [] }

abbrev change : Change
change = record {
  mutate = λ s. ok (record s { model = some "m" });
  initial = none;
  expected_revision = some (pos 3);
  evidence = no_evidence;
}

update-Succeeds_example : (new_state ≡ old_state) ⊎ Succeeds no_evidence old_state new_state
unfolding update carry_out atomic load decide base_of check_candidate same_identity advanced
    decode_own decode decode_document decode_payload state_from payload_of unique known_fields
    named_state named_mode encode validate workspace_id_of within_unit envelope dict_of get same
    same_state ◌+ℤ◌
update-Succeeds_example =
    update-Succeeds small codec owner "at" change completes completes disk old_state new_state refl
      refl

-- The process dies after the rename of the backup.
update-IsAtomic_example :
    IsAtomic small codec owner "at"
      (ok (write new_state "new" "old"))
      (ok (some old_state, false))
      (load small codec owner "at"
        (update small codec owner "at" change dies_after completes disk).1)
unfolding carry_out load decide base_of check_candidate same_identity advanced decode_own decode
    decode_document decode_payload state_from payload_of unique known_fields named_state named_mode
    encode validate workspace_id_of within_unit envelope dict_of get same same_state ◌+ℤ◌
update-IsAtomic_example =
    update-IsAtomic small codec owner "at" change dies_after completes disk refl
