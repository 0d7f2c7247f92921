-- ===== src/Generator.antt =====
-- The generator of configuration and Kubernetes objects, internal/generator.
-- `unmarshal` stands for `json.Unmarshal` into an `any`: the value of a JSON text, if it has one.
pub mod Helpers
pub mod Source
pub mod Sink
pub mod PipelineConfig
pub mod DpConfig
pub mod Credentials
pub mod Ports
pub mod Graph
