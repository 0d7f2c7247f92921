-- ===== src/Generator/Source.antt =====
-- The sources and buffers of internal/generator/pipeline_config.go.
use dataprepper_operator.Base.{
  String, Bool, true, false, Option, none, some, List, [], ◌∷◌, ◌==◌, string_eq, not, if◌then◌else◌,
}
use dataprepper_operator.Base.Dict.{Dict}
use dataprepper_operator.Base.Int.{ℤ, pos, ltb_ℤ}
use dataprepper_operator.Api.Json.{
  Value, bool, num, str, arr, obj, nil, cons, Fields, end, field, put, single, strings,
}
use dataprepper_operator.Api.Common.{SecretReference, BufferSpec}
use dataprepper_operator.Api.Pipeline.{
  KafkaSourceSpec, HttpSourceSpec, OTelSourceSpec, CsvCodecSpec, CodecSpec, S3SourceSpec,
  SourceSpec,
}

-- `if cond { cfg[k] = v }`
abbrev pub put_if : Bool → String → Value → Fields → Fields
put_if true k v cfg = put k v cfg
put_if false k v cfg = cfg

-- `if s != "" { cfg[k] = s }`
abbrev pub put_text : String → String → Fields → Fields
put_text k s cfg = put_if (not (s == "")) k (str s) cfg

-- A `map[string]string` as a value.
abbrev pub texts : Dict String → Fields
texts [] = end
texts ((k, v) ∷ m) = field k (str v) (texts m)

abbrev pub is_positive : ℤ → Bool
is_positive n = ltb_ℤ (pos 0) n

abbrev pub kafka_authentication : Value
kafka_authentication = single "sasl" (
    single "plain" (
      obj (
        field "username" (str "${KAFKA_USERNAME}")
          (field "password" (str "${KAFKA_PASSWORD}") end))))

-- `if ref != nil { cfg["authentication"] = ... }`
abbrev pub put_authentication : Option SecretReference → Fields → Fields
put_authentication none cfg = cfg
put_authentication (some r) cfg = put "authentication" kafka_authentication cfg

abbrev put_consumer_config : Dict String → Fields → Fields
put_consumer_config [] cfg = cfg
put_consumer_config (e ∷ m) cfg = put "consumer_config" (obj (texts (e ∷ m))) cfg

unfoldable pub build_kafka_source : KafkaSourceSpec → ℤ → Value
unfolding put
build_kafka_source kafka topic_workers =
    let topic =
      put_if (is_positive topic_workers) "workers" (num topic_workers)
        (field "name" (str kafka.topic) (field "group_id" (str kafka.group_id) end)) in
    let cfg =
      field "bootstrap_servers" (arr (strings kafka.bootstrap_servers))
        (field "topics" (arr (cons (obj topic) nil)) end) in
    let cfg = put_authentication kafka.credentials_secret_ref cfg in
    let cfg =
      put_if (not (kafka.encryption_type == "")) "encryption"
        (single "type" (str kafka.encryption_type)) cfg in
    single "kafka" (obj (put_consumer_config kafka.consumer_config cfg))

unfoldable pub build_http_source : HttpSourceSpec → Value
unfolding put
build_http_source http =
    single "http" (obj (put_text "path" http.path (field "port" (num http.port) end)))

abbrev pub otel_source_name : List String → String
otel_source_name [] = "otel_trace_source"
otel_source_name (p ∷ ps) =
    if p == "metrics"
    then "otel_metrics_source"
    else if p == "logs"
    then "otel_logs_source"
    else "otel_trace_source"

unfoldable pub build_otel_source : OTelSourceSpec → Value
build_otel_source otel = single (otel_source_name otel.protocols) (single "port" (num otel.port))

abbrev csv_config : CsvCodecSpec → Fields
csv_config csv = put_if csv.header_row "header" (bool true) (put_text "delimiter" csv.delimiter end)

unfoldable pub build_codec : CodecSpec → Value
unfolding put
build_codec codec = elim codec.json [
  | some j ↦ single "json" (obj end)
  | none ↦ elim codec.csv [
    | some csv ↦ single "csv" (obj (csv_config csv))
    | none ↦ elim codec.newline [
      | some n ↦ single "newline" (obj end)
      | none ↦ elim codec.parquet [
        | some p ↦ single "parquet" (obj end)
        | none ↦ elim codec.avro [
          | some avro ↦ single "avro" (obj (put_text "schema" avro.schema end))
          | none ↦ obj end
        ]
      ]
    ]
  ]
]

abbrev put_sqs : String → Fields → Fields
put_sqs url cfg =
    if url == ""
    then cfg
    else put "sqs" (single "queue_url" (str url)) (put "notification_type" (str "sqs") cfg)

abbrev put_codec : Option CodecSpec → Fields → Fields
put_codec none cfg = cfg
put_codec (some c) cfg = put "codec" (build_codec c) cfg

unfoldable pub build_s3_source : S3SourceSpec → Value
unfolding put build_codec
build_s3_source s3 =
    let cfg = field "bucket" (str s3.bucket) (field "region" (str s3.region) end) in
    let cfg = put_sqs s3.sqs_queue_url (put_text "key_path_prefix" s3.prefix cfg) in
    single "s3" (obj (put_text "compression" s3.compression (put_codec s3.codec cfg)))

-- A pipeline connector, among the sources as among the sinks.
abbrev pub connector : String → Value
connector name = single "pipeline" (single "name" (str name))

-- `none` is the error "no source specified".
unfoldable pub build_source : SourceSpec → ℤ → Option Value
unfolding build_kafka_source build_http_source build_otel_source build_s3_source
build_source s topic_workers = elim s.kafka [
  | some kafka ↦ some (build_kafka_source kafka topic_workers)
  | none ↦ elim s.http [
    | some http ↦ some (build_http_source http)
    | none ↦ elim s.otel [
      | some otel ↦ some (build_otel_source otel)
      | none ↦ elim s.s3 [
        | some s3 ↦ some (build_s3_source s3)
        | none ↦ elim s.pipeline [ some p ↦ some (connector p.name) | none ↦ none ]
      ]
    ]
  ]
]

-- `none` is the nil map of a buffer with no type.
unfoldable pub build_buffer : BufferSpec → Option Value
unfolding put
build_buffer buffer = elim buffer.bounded_blocking [
  | none ↦ none
  | some b ↦ some (
      single "bounded_blocking" (
        obj (
          put_if (is_positive b.batch_size) "batch_size" (num b.batch_size)
            (put_if (is_positive b.buffer_size) "buffer_size" (num b.buffer_size) end))))
]
