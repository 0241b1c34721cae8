-- ===== src/State.antt =====
-- boostlock/state.py: what is saved of each policy before it is changed, and how it is put back.
pub mod Snapshot
pub mod Restore
pub mod Legacy
pub mod Manager
pub mod Signals
