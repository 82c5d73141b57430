-- ===== src/Owned.antt =====
-- The owned session and the reconciliation of its run (crg/owned_client.py, crg/owned_recovery.py).
pub mod Files
mod Calls
mod Kept
mod Opened
mod Resumable
mod Evidence
pub mod Ready
pub mod Blocks
mod Answered
pub mod Received
pub mod Returned
mod Written
mod Concluded
pub mod Resumed
pub mod Answer
pub mod Checks
pub mod Events
pub mod Session
pub mod Records
pub mod Submit
pub mod Walk
pub mod Resume
pub mod Readback
pub mod Recovery
pub mod Reconcile
pub mod Reconciled
