-- ===== src/Daemon.antt =====
-- boostlock/daemon.py: the life of the daemon over its subsystems, and the requests that it answers.
pub mod Subsystems
pub mod Pid
pub mod Transaction
pub mod Lifecycle
pub mod Requests
pub mod Wiring
pub mod Driving
