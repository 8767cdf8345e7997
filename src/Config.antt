-- ===== src/Config.antt =====
-- The configuration that autodeploy.ps1 reads, and its checks (internal/config).
pub mod Schema
pub mod Defaults
pub mod Regex
pub mod Patterns
pub mod Password
pub mod Address
pub mod Validate
pub mod Settings
