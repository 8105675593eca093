-- ===== src/Retry.antt =====
-- src/inference-retry.mjs: whether a failed inference is made again.
pub mod Values
pub mod Report
pub mod Checks
pub mod Decision
pub mod Fenced
pub mod Repeated
