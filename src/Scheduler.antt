-- ===== src/Scheduler.antt =====
-- services/scheduler-service/src: the sweeps that the leading scheduler runs over the job table
-- and the Redis lists, one child module for each service.
pub mod Retry
pub mod Reconcile
pub mod Recovery
pub mod Monitor
pub mod Common
pub mod Backoff
pub mod Outcomes
pub mod Leader
