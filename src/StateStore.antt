-- ===== src/StateStore.antt =====
-- The store of session states (crg/state_store.py). Codec has the envelope of a file, Store the files
-- and the operations on them; the other modules prove.
pub mod Codec
pub mod RoundTrip
pub mod Store
pub mod Atomic
pub mod Legal
