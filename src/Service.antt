-- ===== src/Service.antt =====
-- service/src and common/src/dao: the rest service over its database.
pub mod Tables
pub mod Http
pub mod EnvironmentDao
pub mod InviteDao
pub mod CaptureDao
pub mod ReplayDao
pub mod CaptureRoutes
pub mod ReplayRoutes
pub mod InviteRoutes
pub mod EnvironmentRoutes
pub mod UserDao
pub mod SessionDao
pub mod Session
pub mod UserRoutes
pub mod Accounts
pub mod Management
pub mod Creation
pub mod MetricsRoutes
pub mod Launching
