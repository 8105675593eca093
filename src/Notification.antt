-- ===== src/Notification.antt =====
-- src/notification-store.mjs: the notices for the user, and their delivery to endpoints.
pub mod Schema
pub mod Notices
pub mod Deliveries
pub mod Closures
pub mod Receipts
pub mod Calls
pub mod Settled
pub mod Bounds
