-- ===== src/Thermal.antt =====
-- boostlock/thermal.py: sensors, the median filter, package power and the thermal guard.
pub mod Sensor
pub mod Filter
pub mod Rapl
pub mod Guard
