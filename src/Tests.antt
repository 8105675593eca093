-- ===== src/Tests.antt =====
-- Runs at concrete inputs, and the theorems at inputs where their hypotheses hold.
mod FramingRuns
mod RetryRuns
mod WatermarkRuns
mod ChildPolicyRuns
mod NotificationRuns
mod CronRuns
mod SchedulerRuns
mod ProtocolRuns
mod InputRuns
