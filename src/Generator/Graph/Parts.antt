-- ===== src/Generator/Graph/Parts.antt =====
-- The sources and sinks of admissible definitions are built, and name the ends of connectors.
use dataprepper_operator.Base.{
  ◌≡◌, ◌≢◌, refl, String, none, some, List, [], ◌∷◌, ◌==◌, string_eq, arith, All, if_ind,
}
use text.Mathlib.TextEquality.{eq_iff}
use dataprepper_operator.Base.Int.{ℤ}
use dataprepper_operator.Api.Json.{num, single, Value, obj, end, field, get, values}
use dataprepper_operator.Api.Common.{SinkSpec}
use dataprepper_operator.Api.Pipeline.{SourceSpec}
use dataprepper_operator.Api.Webhook.{sink_names}
use dataprepper_operator.Api.Webhook.Unions.{IsOneSource, IsOneSink}
use dataprepper_operator.Generator.Source.{
  otel_source_name, connector, build_source, build_kafka_source, build_http_source,
  build_otel_source, build_s3_source,
}
use dataprepper_operator.Generator.Sink.{
  build_sink, build_sinks, build_open_search_sink, build_s3_sink, build_kafka_sink,
}
use dataprepper_operator.Generator.Graph.Read.{connector_name, connector_names, or_empty}

abbrev pub source_name : SourceSpec → String
source_name s = elim s.pipeline [ none ↦ "" | some c ↦ c.name ]

otel_source_name-ne : (ps : List String) → otel_source_name ps ≢ "pipeline"
otel_source_name-ne [] e = cc ((eq_iff _ _).1 e)
otel_source_name-ne (p ∷ ps) e =
    if_ind (λ n. n ≢ "pipeline") (p == "metrics") _ _ (λ _ e. cc ((eq_iff _ _).1 e))
      (λ _.
        if_ind (λ n. n ≢ "pipeline") (p == "logs") _ _ (λ _ e. cc ((eq_iff _ _).1 e))
          (λ _ e. cc ((eq_iff _ _).1 e)))
      e

get-single : (k j : String) (v : Value) → k ≢ j → get j (field k v end) ≡ none
unfolding get
get-single k j v ne = ground arith

pub build_source-total :
    {s : SourceSpec} (tw : ℤ)
    → IsOneSource s
    → (v : Value) × (build_source s tw ≡ some v) × (or_empty (connector_name v) ≡ source_name s)
unfolding build_source build_kafka_source build_http_source build_otel_source build_s3_source get
    string_eq
build_source-total tw (IsOneSource.kafka k) = (build_kafka_source k tw, refl, refl)
build_source-total tw (IsOneSource.http h) = (build_http_source h, refl, refl)
build_source-total tw (IsOneSource.otel o) = (
  build_otel_source o,
  refl,
  rw
      (get-single (otel_source_name o.protocols) "pipeline" (single "port" (num o.port))
        (otel_source_name-ne o.protocols))
      refl,
)
build_source-total tw (IsOneSource.s3 s) = (build_s3_source s, refl, refl)
build_source-total tw (IsOneSource.pipeline p) = (connector p.name, refl, refl)

build_sink-total :
    {s : SinkSpec}
    → IsOneSink s
    → (v : Value) × (build_sink s ≡ some v)
      × (connector_name v ≡ elim s.pipeline [ none ↦ none | some c ↦ some c.name ])
unfolding build_sink build_open_search_sink build_s3_sink build_kafka_sink get string_eq
build_sink-total (IsOneSink.open_search o) = (build_open_search_sink o, refl, refl)
build_sink-total (IsOneSink.pipeline p) = (connector p.name, refl, refl)
build_sink-total (IsOneSink.s3 s) = (build_s3_sink s, refl, refl)
build_sink-total (IsOneSink.kafka k) = (build_kafka_sink k, refl, refl)
build_sink-total (IsOneSink.stdout t) = (single "stdout" (obj end), refl, refl)

pub build_sinks-total :
    (ss : List SinkSpec)
    → All IsOneSink ss
    → (vs : List Value) × (build_sinks ss ≡ some vs) × (connector_names (values vs) ≡ sink_names ss)
unfolding build_sinks sink_names
build_sinks-total [] h = ([], refl, refl)
build_sinks-total (s ∷ ss) h =
    let (v, built, named) = build_sink-total h.0 in
    let (vs, rest, names) = build_sinks-total ss h.1 in
    (v ∷ vs, ground arith, ground (arith, named, names))
