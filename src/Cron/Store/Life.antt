-- ===== src/Cron/Store/Life.antt =====
-- What becomes of the jobs and runs of src/cron-store.mjs.
pub mod Claiming
pub mod Alerts
pub mod Forward
pub mod EveryCall
pub mod Ending
