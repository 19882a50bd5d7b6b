-- ===== src/Scheduler.antt =====
-- crates/kelvin-sdk/src/scheduler: cron schedules and the durable store of slots.
pub mod Cron
pub mod Slot
pub mod State
pub mod Persistence
pub mod Store
