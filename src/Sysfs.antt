-- ===== src/Sysfs.antt =====
-- boostlock/sysfs.py: cpufreq policies, the target that each allows, the plan of writes, and its
-- execution as a transaction.
pub mod Policy
pub mod CpuRange
pub mod Discovery
pub mod Access
pub mod Target
pub mod Plan
pub mod Execute
