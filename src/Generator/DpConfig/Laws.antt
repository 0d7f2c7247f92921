-- ===== src/Generator/DpConfig/Laws.antt =====
-- When the Data Prepper configuration is generated.
use dataprepper_operator.Base.{
  ◌≡◌, refl, String, Bool, Option, none, some, OnSome, if◌then◌else◌, false,
}
use dataprepper_operator.Base.Result.{ok, bind_of}
use dataprepper_operator.Api.Json.{Value, Fields, end, field, bool, copy_fields}
use dataprepper_operator.Api.Common.{DataPrepperConfigSpec}
use dataprepper_operator.Api.Pipeline.{DataPrepperPipelineSpec}
use dataprepper_operator.PeerForwarder.{generate_config}
use dataprepper_operator.Generator.Helpers.{json_to_map}
use dataprepper_operator.Generator.DpConfig.{
  copy_raw, configure, put_circuit_breakers, generate_dp_config,
}

module _ (unmarshal : String → Option Value) where
  -- A JSON text of an object, or `null`.
  abbrev pub IsObject : String → Type 0
  IsObject raw = (fs : Fields) × (json_to_map unmarshal raw ≡ some fs)

  -- The raw part of the configuration, if there is one.
  abbrev pub HasRawObject : Option DataPrepperConfigSpec → Type 0
  HasRawObject = OnSome (λ dp. OnSome IsObject dp.raw)

  copy_raw-total :
      (raw : Option String) (config : Fields)
      → OnSome IsObject raw
      → (fs : Fields) × (copy_raw unmarshal raw config ≡ ok fs)
  unfolding copy_raw
  copy_raw-total none config h = (config, refl)
  copy_raw-total (some raw) config h = (copy_fields config h.0, rw (copy_raw, h.1) refl)

  configure-total :
      (dp : Option DataPrepperConfigSpec) (config : Fields)
      → HasRawObject dp
      → (fs : Fields) × (configure unmarshal dp config ≡ ok fs)
  unfolding configure
  configure-total none config h = (config, refl)
  configure-total (some dp) config h =
      copy_raw-total dp.raw (put_circuit_breakers dp.circuit_breakers config) h

  pub generate_dp_config-total :
      (spec : DataPrepperPipelineSpec) (peer : Bool) (name namespace : String)
      → HasRawObject spec.data_prepper_config
      → (fs : Fields) × (generate_dp_config unmarshal spec peer name namespace ≡ ok fs)
  unfolding generate_dp_config
  generate_dp_config-total spec peer name namespace h =
      let (fs, configured) =
        configure-total spec.data_prepper_config (field "ssl" (bool false) end) h in
      (
        if peer then copy_fields fs (generate_config name namespace) else fs,
        bind_of (configure unmarshal spec.data_prepper_config (field "ssl" (bool false) end)) _ fs
            configured,
      )
