-- ===== src/Generator/DpConfig.antt =====
-- `GenerateDPConfig`, internal/generator/dp_config.go.
pub mod Laws
use dataprepper_operator.Base.{String, Bool, false, Option, none, some, if◌then◌else◌}
use dataprepper_operator.Base.Result.{Result, ok, err, ◌>>=◌}
use dataprepper_operator.Api.Json.{Value, bool, str, Fields, end, field, put, copy_fields, single}
use dataprepper_operator.Api.Common.{CircuitBreakerSpec, DataPrepperConfigSpec}
use dataprepper_operator.Api.Pipeline.{DataPrepperPipelineSpec}
use dataprepper_operator.PeerForwarder.{generate_config}
use dataprepper_operator.Generator.Helpers.{GenerateError, bad_raw_config, json_to_map}

put_circuit_breakers : Option CircuitBreakerSpec → Fields → Fields
unfolding put
put_circuit_breakers none config = config
put_circuit_breakers (some cb) config = elim cb.heap [
  | none ↦ config
  | some heap ↦ put "circuit_breakers" (single "heap" (single "usage" (str heap.usage))) config
]

module _ (unmarshal : String → Option Value) where
  copy_raw : Option String → Fields → Result GenerateError Fields
  unfolding json_to_map copy_fields
  copy_raw none config = ok config
  copy_raw (some raw) config = elim (json_to_map unmarshal raw) [
    | none ↦ err bad_raw_config
    | some m ↦ ok (copy_fields config m)
  ]

  configure : Option DataPrepperConfigSpec → Fields → Result GenerateError Fields
  unfolding copy_raw put_circuit_breakers
  configure none config = ok config
  configure (some dp) config = copy_raw dp.raw (put_circuit_breakers dp.circuit_breakers config)

  unfoldable pub generate_dp_config :
      DataPrepperPipelineSpec → Bool → (name namespace : String) → Result GenerateError Fields
  unfolding configure copy_fields generate_config
  generate_dp_config spec needs_peer_forwarder name namespace =
      configure spec.data_prepper_config (field "ssl" (bool false) end) >>= λ config.
      ok (
        if needs_peer_forwarder
        then copy_fields config (generate_config name namespace)
        else config)
