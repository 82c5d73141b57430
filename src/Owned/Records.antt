-- ===== src/Owned/Records.antt =====
-- The records that an owned session writes for an input (crg/owned_client.py), the dictionary that
-- a rollover returns (crg/coordinator.py), and the journal of a rollover that has not begun.
use context_rollover_guard.Session.{recovery, normal}
use context_rollover_guard.Session.Dict.{state_value}
use context_rollover_guard.Rollover.Effects.{
  Journal, Report, at_start, at_settings, at_forward, at_archive, Operation, blocked, finished,
}
use context_rollover_guard.Prelude.{String, Bool, true, false, not, Option, none, some}
use context_rollover_guard.Json.{Json, Members, bool, str, obj, end, member}

unfoldable pub source_record : Json → String → Bool → Json
source_record thread prompt fresh = obj (
    member "thread_id" thread
      (member "text" (str prompt) (member "explicit_fresh" (bool fresh) end)))

abbrev pub transaction_record : String → Json
transaction_record rid = obj (member "rollover_id" (str rid) end)

abbrev pub accepted_record : Json → Json → Json
accepted_record thread turn = obj (member "thread_id" thread (member "turn_id" turn end))

abbrev pub operation_text : Operation → String
operation_text at_start = "start"
operation_text at_settings = "settings"
operation_text at_forward = "forward"
operation_text at_archive = "archive"

abbrev pub archives : Operation → Bool
archives at_archive = true
archives _ = false

abbrev pub reason_entry : Option String → Members → Members
reason_entry none rest = rest
reason_entry (some reason) rest = member "source_retention_reason" (str reason) rest

-- The dictionary that `Coordinator.run` returns.
unfoldable pub route_record : String → Report → Json
route_record rid (finished o) = obj (
    member "state" (str (state_value normal)) (
      member "rollover_id" (str o.rollover_id) (
        member "old_thread_id" (str o.old_thread_id) (
          member "new_thread_id" o.new_thread_id (
            member "accepted_turn_id" (str o.accepted_turn_id) (
              member "old_thread_archived" (bool o.old_thread_archived) (
                reason_entry o.source_retention_reason (
                  member "surface" (str "owned-app-server") (
                    member "desktop_switched" (bool false)
                      (member "handoff_index" (str o.handoff_index) end))))))))))
route_record rid (blocked op) = obj (
    member "state" (str (state_value recovery)) (
      member "operation" (str (operation_text op)) (
        member "rollover_id" (str rid) (
          member "automatic_resend" (bool false)
            (member "old_thread_retained" (bool (not (archives op))) end)))))

abbrev pub no_journal : Journal
no_journal = record {
  prepared = none;
  start_intent = none;
  started = none;
  forward_intent = none;
  accepted = none;
  archive_intent = none;
  archived = none;
  committed = none;
  recoveries = record { start = false; settings = false; forward = false; archive = false };
}
