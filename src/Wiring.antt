-- ===== src/Wiring.antt =====
-- internal/wiring/wiring.go.
pub mod Program
pub mod Bounds
pub mod Deletion
pub mod Once
pub mod Scope
pub mod Session
pub mod Calls
pub mod Topology
pub mod Advanced
pub mod Pool
pub mod Nodes
pub mod Cluster
pub mod Retry
pub mod Settings
pub mod Guarded
