-- ===== src/Rollover.antt =====
-- One rollover of an owned client and its journal (crg/coordinator.py and crg/recovery.py).
-- Effects has the journal, the requests and what can become of a write or a request; Checks the
-- pure tests; Run and Reconcile the operations; the other modules prove.
pub mod Effects
pub mod Checks
pub mod Run
pub mod Prepare
pub mod Contexts
pub mod Claims
pub mod Exclusive
pub mod Reconcile
pub mod Invariant
pub mod Once
pub mod Naming
pub mod Bound
pub mod Named
pub mod History
pub mod Outcomes
pub mod Records
pub mod Kept
pub mod Evidence
