-- ===== src/Discovery.antt =====
-- Source discovery: internal/discovery, internal/controller/datapreppersourcediscovery_controller.go.
pub mod Names
pub mod Policy
pub mod Sources
pub mod Template
pub mod Rollout
pub mod Cleanup
pub mod Cycle
pub mod Reader
pub mod Objects
pub mod Runs
