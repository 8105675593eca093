-- ===== src/Protocol.antt =====
-- The frames of the wire protocol (src/protocol.mjs).
pub mod Reading
pub mod Checked
pub mod Bounds
pub mod Cursors
pub mod Submissions
pub mod Accepted
pub mod Answered
pub mod Searches
pub mod Sessions
pub mod Children
pub mod Settings
pub mod Records
pub mod History
pub mod CronFields
pub mod CronJobs
pub mod Notices
pub mod Submitting
pub mod Requests
pub mod Server
