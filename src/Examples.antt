-- ===== src/Examples.antt =====
-- Concrete inputs on which the theorems are applied.
mod Adapter
mod Scheduling
mod Channels
mod Rounds
mod Runs
mod Extensions
mod Agents
mod FileTools
