-- ===== src/Engine.antt =====
-- boostlock/engine.py: the duty controller, the load monitor, the waveform and the pulse engine.
pub mod Duty
pub mod Load
pub mod Waveform
pub mod Policies
pub mod Controller
pub mod Target
pub mod Life
pub mod Pulses
pub mod Metrics
