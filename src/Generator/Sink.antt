-- ===== src/Generator/Sink.antt =====
-- The sinks of internal/generator/pipeline_config.go.
use dataprepper_operator.Base.{String, Option, none, some, List, [], ◌∷◌, string_eq}
use dataprepper_operator.Api.Json.{Value, str, arr, obj, Fields, end, field, put, single, strings}
use dataprepper_operator.Api.Common.{
  SecretReference, OpenSearchSinkSpec, S3SinkSpec, KafkaSinkSpec, SinkSpec,
}
use dataprepper_operator.Generator.Source.{put_text, put_authentication, connector}

abbrev put_login : Option SecretReference → Fields → Fields
put_login none cfg = cfg
put_login (some r) cfg =
    put "password" (str "${OPENSEARCH_PASSWORD}")
      (put "username" (str "${OPENSEARCH_USERNAME}") cfg)

abbrev put_routes : List String → Fields → Fields
put_routes [] cfg = cfg
put_routes (r ∷ rs) cfg = put "routes" (arr (strings (r ∷ rs))) cfg

unfoldable pub build_open_search_sink : OpenSearchSinkSpec → Value
unfolding put
build_open_search_sink os =
    let cfg = field "hosts" (arr (strings os.hosts)) end in
    let cfg = put_text "index_type" os.index_type (put_text "index" os.index cfg) in
    single "opensearch" (obj (put_routes os.routes (put_login os.credentials_secret_ref cfg)))

unfoldable pub build_s3_sink : S3SinkSpec → Value
unfolding put
build_s3_sink s3 =
    let cfg = field "bucket" (str s3.bucket) (field "region" (str s3.region) end) in
    let cfg = put_text "codec" s3.codec (put_text "key_path_prefix" s3.key_path_prefix cfg) in
    let cfg = put_text "compression" s3.compression cfg in
    single "s3" (obj (put "aws" (single "region" (str s3.region)) cfg))

unfoldable pub build_kafka_sink : KafkaSinkSpec → Value
unfolding put
build_kafka_sink kafka =
    let cfg =
      field "bootstrap_servers" (arr (strings kafka.bootstrap_servers))
        (field "topic" (str kafka.topic) end) in
    let cfg = put_text "serde_format" kafka.serde_format cfg in
    single "kafka" (obj (put_authentication kafka.credentials_secret_ref cfg))

-- The body of the loop. `none` is the error "no sink type specified".
unfoldable pub build_sink : SinkSpec → Option Value
unfolding build_open_search_sink build_s3_sink build_kafka_sink
build_sink s = elim s.open_search [
  | some o ↦ some (build_open_search_sink o)
  | none ↦ elim s.pipeline [
    | some p ↦ some (connector p.name)
    | none ↦ elim s.s3 [
      | some s3 ↦ some (build_s3_sink s3)
      | none ↦ elim s.kafka [
        | some k ↦ some (build_kafka_sink k)
        | none ↦ elim s.stdout [ some t ↦ some (single "stdout" (obj end)) | none ↦ none ]
      ]
    ]
  ]
]

unfoldable pub build_sinks : List SinkSpec → Option (List Value)
unfolding build_sink
build_sinks [] = some []
build_sinks (s ∷ ss) =
    let rest = build_sinks ss in
    elim (build_sink s) [
      | none ↦ none
      | some v ↦ elim rest [ none ↦ none | some vs ↦ some (v ∷ vs) ]
    ]
