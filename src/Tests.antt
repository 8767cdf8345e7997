-- ===== src/Tests.antt =====
-- The theorems at concrete inputs.
mod Logs
mod Configs
mod Jobs
mod Deploys
mod SignIn
mod Wirings
mod Forms
mod Stores
mod Services
