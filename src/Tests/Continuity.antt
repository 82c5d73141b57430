-- ===== src/Tests/Continuity.antt =====
-- The policy and a quiet thread.
use context_rollover_guard.Prelude.{◌≡◌, ◌↔◌, true, false, some, [], ◌∷◌}
use context_rollover_guard.Continuity.{
  Activity, Signals, decide, quiet_point, entry, migrate_explicit, recovery_required, warn,
}
use context_rollover_guard.Continuity.Quiet.{IsQuiet, quiet_point-evidence, decide_precedence}

abbrev idle_thread : Activity
idle_thread = record {
  thread_id = some "old";
  complete = true;
  turn_state = some "completed";
  tools = some [];
  children = some (entry (some "detached") ∷ []);
}

quiet_point-evidence_example :
    (quiet_point (some idle_thread) "old" ≡ true)
    ↔ ((s : Activity) × (some idle_thread ≡ some s) × IsQuiet s "old")
quiet_point-evidence_example = quiet_point-evidence (some idle_thread) "old"

abbrev signals : Signals
signals = record {
  ambiguous = false;
  explicit_fresh = true;
  handoff_done = true;
  native_healthy = true;
  high_pressure = true;
}

decide_precedence_example :
    ((decide signals ≡ recovery_required) ↔ (signals.ambiguous ≡ true))
    × ((decide signals ≡ migrate_explicit)
        ↔ ((signals.explicit_fresh ≡ true) × (signals.ambiguous ≡ false)))
    × (decide signals ≡ warn
        → (signals.high_pressure ≡ true)
          × (signals.native_healthy ≡ false)
          × (signals.handoff_done ≡ false))
decide_precedence_example = decide_precedence signals
