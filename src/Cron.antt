-- ===== src/Cron.antt =====
-- The cron subsystem: src/cron-schedule.mjs, src/cron-launch.mjs, src/cron-store.mjs and
-- src/cron-scheduler.mjs.
pub mod Text
pub mod Schedule
pub mod Launch
pub mod Store
pub mod Scheduler
