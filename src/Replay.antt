-- ===== src/Replay.antt =====
-- replay/src: a replay runs the commands of a workload again, at the times of the capture.
pub mod Schedule
