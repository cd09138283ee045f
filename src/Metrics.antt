-- ===== src/Metrics.antt =====
-- common/src/metrics: how samples of metrics are merged, kept and read.
pub mod Merger
pub mod Storage
pub mod Backend
