-- ===== src/Ledger.antt =====
-- The usage ledgers (crg/ledger.py): Legacy is `Ledger`, Canonical is `CanonicalLedger`; the other
-- modules prove.
pub mod Legacy
pub mod Replay
pub mod Intervals
pub mod Canonical
pub mod Revisions
pub mod Again
