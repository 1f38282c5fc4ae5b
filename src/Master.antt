-- ===== src/Master.antt =====
-- The master daemon (master/*.cpp): job queue, job groups, workers' jobs and their bookkeeping.
mod Checks
pub mod WorkerJob
pub mod FailedWorkers
pub mod Permissions
pub mod JobStore
pub mod JobQueue
pub mod Scheduler
pub mod Timeouts
pub mod WorkerList
pub mod JobManager
pub mod WorkerManager
pub mod CronManager
