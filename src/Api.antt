-- ===== src/Api.antt =====
-- The types of api/v1alpha1, and the admission webhook there.
-- A pointer is an `Option`, a Go map a dictionary (nil and empty are not told apart, as the code
-- never does), an `int` or `int32` an integer. Values of Kubernetes' own types that the operator
-- only passes on (affinity, tolerations, security contexts) are kept as the JSON that states them.
pub mod Json
pub mod Common
pub mod Pipeline
pub mod Defaults
pub mod Discovery
pub mod Webhook
