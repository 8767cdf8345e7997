-- ===== src/Deploy.antt =====
-- internal/deploy/: the boot command that a node is started with, and the run of a deployment.
pub mod BootCommand
pub mod Lines
pub mod Run
pub mod Manager
pub mod Store
