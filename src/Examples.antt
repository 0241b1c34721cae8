-- ===== src/Examples.antt =====
-- Concrete inputs at which the conditional theorems apply, and tests of the models.
mod Settings
mod Thermals
mod Engines
mod Transactions
mod Plans
mod States
mod Locks
mod Turns
mod Daemons
mod Wirings
mod Trees
mod Routes
mod Lives
mod Exchanges
mod Restores
mod Signals
mod Pulses
mod Meters
mod Owners
