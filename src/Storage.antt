-- ===== src/Storage.antt =====
-- common/src/storage: where the fragments of workloads and metrics are kept.
pub mod Schema
pub mod Backend
pub mod Fragmented
pub mod S3
