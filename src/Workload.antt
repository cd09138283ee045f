-- ===== src/Workload.antt =====
-- capture/src/workload: the commands that a capture records.
pub mod Storage
pub mod Prep
pub mod Logger
