-- ===== src/ChildPolicy.antt =====
-- src/child-policy.mjs: how a child session may be started.
pub mod Models
pub mod Launch
pub mod Find
pub mod Distinct
pub mod Order
pub mod Granted
