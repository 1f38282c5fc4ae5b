-- ===== src/Admin.antt =====
-- The command-line admin tool, prun (Python).
pub mod Words
pub mod Numbers
pub mod Commands
pub mod Session
pub mod Options
pub mod Driver
pub mod Requests
pub mod Sequence
pub mod Spellings
mod Checks
