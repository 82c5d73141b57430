-- ===== src/Tests/Settings.antt =====
-- A thread that was asked for with a model and a read-only sandbox.
use context_rollover_guard.Prelude.{refl}
use context_rollover_guard.Json.{Members, member, end, str, get, same}
use context_rollover_guard.Settings.Requested.{
  IsPreserved, verify_requested, verify_requested-IsPreserved, check_keys, compared,
  check_permissions, check_sandbox,
}
use context_rollover_guard.Tests.Rollover.{settings}

abbrev request : Members
request = member "model" (str "m") (member "sandbox" (str "read-only") end)

verify_requested-IsPreserved_example : IsPreserved settings request
unfolding verify_requested check_keys compared check_permissions check_sandbox get same
verify_requested-IsPreserved_example = verify_requested-IsPreserved settings request refl
