-- ===== src/Process.antt =====
-- What captures, replays and mimics have in common (common/src/capture-replay/subprocess.ts and the
-- windows of time that the three classes gather data for), and the life of a capture.
pub mod Window
pub mod Tries
pub mod Lifecycle
pub mod Commands
pub mod Args
pub mod Mimics
pub mod Gathering
pub mod Measuring
