-- ===== src/Generator/Graph.antt =====
-- The generated pipelines.yaml states the graph that was validated, and admissible definitions
-- never fail to generate (internal/generator/pipeline_config.go).
pub mod Read
pub mod Parts
pub mod Sound
