-- ===== src/Cron/Store.antt =====
-- src/cron-store.mjs: the tables `cron_jobs` and `cron_runs`. A table is the list of its rows in the
-- order of insertion, and a JSON column holds the value that it encodes. A method takes the tables
-- and returns the new ones with its result; where it throws, the transaction is rolled back (a single
-- statement has no effect), so an error stands alone.
pub mod Schema
pub mod Jobs
pub mod Claims
pub mod Runs
pub mod Checks
pub mod Notices
pub mod History
pub mod Cases
pub mod Sound
pub mod Life
