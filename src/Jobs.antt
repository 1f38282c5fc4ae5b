-- ===== src/Jobs.antt =====
-- The job scripts under jobs/: what master and worker run as examples and as load tests.
pub mod Simple
pub mod Harness
pub mod Runs
pub mod Payload
mod Checks
