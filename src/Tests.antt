-- ===== src/Tests.antt =====
-- Concrete runs, and each property at a concrete input.
mod Samples
mod Cluster
mod Validation
mod Generator
mod Discovery
mod Reconciler
mod Cycle
mod Propagation
mod Workload
mod Rollout
mod Runs
