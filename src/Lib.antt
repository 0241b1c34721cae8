-- ===== src/Lib.antt =====
-- BoostLock keeps CPU frequency up: it plans writes to the cpufreq files, applies them as a
-- transaction, holds a DMA-latency lock, drives worker threads with a duty cycle that follows the
-- measured frequency, clamps that duty by temperature, and restores the saved state at the end.
--
-- Config (boostlock/config.py): the settings as a record, `validate` as a chain of guards.
--
-- Thermal (boostlock/thermal.py): Sensor is `ThermalSensor`, Filter is `SpikeFilter`, Rapl is
-- `RAPLMonitor`, Guard is `ThermalGuard`. The files read at a poll are arguments, and the callbacks
-- that an update makes are part of its result; the clock is read once where the code reads it twice.
-- An update holds the guard's lock from start to end, so a run of the monitor is a list of updates.
--
-- Engine (boostlock/engine.py): Duty is `AdaptiveDutyController`, with one feedback state for each
-- policy, Load is `ExternalLoadMonitor`, Waveform is `WaveformGenerator`, and Controller has
-- `PulseEngine` with one turn of `_controller_loop` as a function of the engine, the frequencies read,
-- the thermal clamp and the load. Target is `_effective_target_for_policy`, Policies is
-- `_resolve_target_cores` and `_resolve_policy_targets`, and Life has the construction, `start`,
-- `stop`, `pause`, `resume`, `reconfigure` and the local clamps. Pulses is the loop of a worker's
-- thread over the rounds that its events and its clock give, and Metrics is `get_metrics`, over one
-- reading of each worker's flags where the code reads some of them twice, without the rounded times
-- and duties. Each call and each turn is one step of Life/Reach, so what a call does between two
-- sections of the lock is not interleaved with a turn.
--
-- Sysfs (boostlock/sysfs.py): Policy has the data, CpuRange is `parse_cpu_range`, Discovery is
-- `discover_cpufreq_policies` with the inventory of each directory, from a record `Tree` of the files
-- and of what the code calls on paths and text, Target is `_effective_policy_target`, Plan is
-- `build_policy_apply_plan`, Execute is `preflight_policy_apply_plan` and
-- `execute_policy_apply_plan`, and Access has the reads and writes of single files. The daemon hands
-- the plan to the transaction, and the snapshot is made from the plan's actions.
--
-- PmQos (boostlock/pm_qos.py): `lock`, the cpuidle fallback and `_release`, over a record `Os` of the
-- calls on the system, whose answers are arbitrary. Planned is the route that a transaction takes.
--
-- State (boostlock/state.py): Snapshot is `_create_policy_snapshot`, Restore is
-- `_restore_policy_snapshot`, Legacy is `_restore_legacy_snapshot` over Sysfs/Access, Manager is
-- `restore` with `restore_fallback`, and Signals has the signal handlers of the process.
--
-- Protocol (boostlock/protocol.py): the commands and `Command.from_str`, in Messages the requests and
-- responses with their dictionary forms, and in Codec their lines of JSON.
--
-- Ipc (boostlock/ipc.py): the loops of `_handle_client` and of `send_request` over the chunks that a
-- socket gives, and in Server `start` and `stop` of the server. The handler of the server is any
-- function; the daemon's is `handle_ipc_request`, whose arguments Daemon/Requests takes as settings.
--
-- Daemon (boostlock/daemon.py): Subsystems is the interface of what `BoostLockDaemon` supervises, each
-- method any function of the state that the subsystems keep. Lifecycle has `start`, `stop`, `pause`,
-- `resume`, `lock`, `unlock`, `reconfigure`, the emergency rollback and the thermal callbacks, and
-- Requests has `handle_ipc_request` and the events that act on the daemon: requests, signals, scheduled
-- stops and callbacks, each of them one step. Lifecycle/Table is the abstract automaton of the state
-- and the lock, with a label for what is asked. Pid is `PIDFileManager`, over the calls on the operating system. Transaction is
-- `_apply_startup_policy_transaction` with its writer: the plan of Sysfs and the lock of PmQos as one
-- run of `execute_policy_apply_plan`. Wiring puts the lock, the PID file and the transaction in the
-- places that the interface has for them, and Driving the engine.
--
-- Python floats are any numbers with the laws of Prelude/Float: an order that is total, and
-- arithmetic that keeps it. NaN is left out. A literal is its value in ten-thousandths. Examples
-- computes with Prelude/Fixed. Python's int is the integers of Prelude/Int; a dict is an association
-- list in insertion order. Every loop is structural recursion on the list that it walks or on the
-- count of a range, so none has fuel; `str` of a number (Prelude/Decimal) takes one round more than
-- the number, and each round drops a digit.
--
-- Parameters: what files hold, `Path.resolve`, the file writer and the open check that the daemon
-- passes, the calls on the DMA-latency device and on the PID file, `int`, `strip` and `split` on text,
-- sine, float remainder and random numbers; of the messages, the text of a JSON value, UTF-8, `str`
-- and `float`. Not modelled: threads, the accept loop, the daemon's status reports, the capture of a
-- legacy snapshot and the JSON form of snapshots, the detection of the hardware, the command line
-- and the benchmark.
pub mod Prelude
pub mod Config
pub mod Thermal
pub mod Sysfs
pub mod Engine
pub mod PmQos
pub mod State
pub mod Protocol
pub mod Ipc
pub mod Daemon
pub mod Examples
