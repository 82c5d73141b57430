-- ===== src/Tests.antt =====
-- The theorems at concrete inputs, and runs of the model.
mod Session
mod Rollover
mod Claims
mod Redemption
mod Timing
mod Continuity
mod Retry
mod Settings
mod StateStore
mod Protocol
mod Client
mod Ledger
mod Canonical
mod Features
mod Owned
mod Submit
mod Config
mod Predictor
