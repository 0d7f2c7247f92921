-- ===== src/Defaults/Keeps.antt =====
-- The merge of defaults keeps a definition that the webhook accepts.
use dataprepper_operator.Base.{
  ◌≡◌, ◌≢◌, refl, sym, subst, arith, String, Option, none, some, List, [], ◌∷◌, All, OnSome, map,
  string_eq, ◌∙◌,
}
use dataprepper_operator.Api.Common.{OpenSearchSinkSpec, SinkSpec}
use dataprepper_operator.Api.Defaults.{DefaultKafkaSpec, DefaultSinkSpec, DataPrepperDefaultsSpec}
use dataprepper_operator.Api.Pipeline.{SourceSpec, PipelineDefinition, DataPrepperPipelineSpec}
use dataprepper_operator.Api.Webhook.Unions.{IsOneSource, IsOneSink, IsAtMostOneCodec}
use dataprepper_operator.Api.Webhook.Accepts.{IsDefinition, definition_names}
use dataprepper_operator.Defaults.{
  merge_kafka, merge_sink, merge_open_search, merge_spec, merge_with,
}
use dataprepper_operator.Defaults.Shape.{
  merge_definition, merge_kafka_of, merge_sinks_of, merge_all-map,
}

merge_kafka-IsOneSource :
    (d : DefaultKafkaSpec) (p : PipelineDefinition) (s : SourceSpec)
    → IsOneSource s
    → IsOneSource (merge_kafka d (record p { source = s })).source
unfolding merge_kafka
merge_kafka-IsOneSource d p s (IsOneSource.kafka k) = IsOneSource.kafka _
merge_kafka-IsOneSource d p s (IsOneSource.http h) = IsOneSource.http h
merge_kafka-IsOneSource d p s (IsOneSource.otel o) = IsOneSource.otel o
merge_kafka-IsOneSource d p s (IsOneSource.s3 t) = IsOneSource.s3 t
merge_kafka-IsOneSource d p s (IsOneSource.pipeline q) = IsOneSource.pipeline q

merge_sink-IsOneSink :
    (d : OpenSearchSinkSpec) (s : SinkSpec) → IsOneSink s → IsOneSink (merge_sink d s)
unfolding merge_sink
merge_sink-IsOneSink d s (IsOneSink.open_search o) = IsOneSink.open_search _
merge_sink-IsOneSink d s (IsOneSink.pipeline q) = IsOneSink.pipeline q
merge_sink-IsOneSink d s (IsOneSink.s3 t) = IsOneSink.s3 t
merge_sink-IsOneSink d s (IsOneSink.kafka k) = IsOneSink.kafka k
merge_sink-IsOneSink d s (IsOneSink.stdout t) = IsOneSink.stdout t

map-IsOneSink :
    (d : OpenSearchSinkSpec) (ss : List SinkSpec)
    → All IsOneSink ss
    → All IsOneSink (map (merge_sink d) ss)
map-IsOneSink d [] h = tt
map-IsOneSink d (s ∷ ss) h = (merge_sink-IsOneSink d s h.0, map-IsOneSink d ss h.1)

map-nonempty : (d : OpenSearchSinkSpec) (ss : List SinkSpec) → ss ≢ [] → map (merge_sink d) ss ≢ []
map-nonempty d [] h = h
map-nonempty d (s ∷ ss) h = λ e. cc

merge_kafka-codec :
    (d : DefaultKafkaSpec) (p : PipelineDefinition)
    → ((merge_kafka d p).source.s3 ≡ p.source.s3)
      × ((merge_kafka d p).name ≡ p.name)
      × ((merge_kafka d p).sink ≡ p.sink)
      × ((merge_kafka d p).processors ≡ p.processors)
unfolding merge_kafka
merge_kafka-codec d p = ground arith

merge_kafka_of-IsDefinition :
    (k : Option DefaultKafkaSpec) (p : PipelineDefinition)
    → IsDefinition p
    → IsDefinition (merge_kafka_of k p)
merge_kafka_of-IsDefinition none p h = h
merge_kafka_of-IsDefinition (some d) p h =
    let (codec, name, sink, processors) = merge_kafka-codec d p in
    record {
      named = subst (λ n. n ≢ "") (sym name) h.named;
      one_source = merge_kafka-IsOneSource d p p.source h.one_source;
      has_sink = subst (λ s. s ≢ []) (sym sink) h.has_sink;
      one_sink_each = subst (All IsOneSink) (sym sink) h.one_sink_each;
      codec = subst (OnSome (λ s. OnSome IsAtMostOneCodec s.codec)) (sym codec) h.codec;
    }

merge_open_search-IsDefinition :
    (o : OpenSearchSinkSpec) (p : PipelineDefinition)
    → IsDefinition p
    → IsDefinition (merge_open_search o p)
unfolding merge_open_search
merge_open_search-IsDefinition o p h = record {
  named = h.named;
  one_source = h.one_source;
  has_sink = map-nonempty o p.sink h.has_sink;
  one_sink_each = map-IsOneSink o p.sink h.one_sink_each;
  codec = h.codec;
}

merge_sinks_of-IsDefinition :
    (s : Option DefaultSinkSpec) (p : PipelineDefinition)
    → IsDefinition p
    → IsDefinition (merge_sinks_of s p)
merge_sinks_of-IsDefinition none p h = h
merge_sinks_of-IsDefinition (some d) p h =
    elim d.open_search
      as (λ o. IsDefinition (elim o [ none ↦ p | some x ↦ merge_open_search x p ])) [
        | none ↦ h
        | some o ↦ merge_open_search-IsDefinition o p h
      ]

-- The merge changes neither the name nor the processors.
merge_sinks_of-keeps :
    (s : Option DefaultSinkSpec) (p : PipelineDefinition)
    → ((merge_sinks_of s p).name ≡ p.name) × ((merge_sinks_of s p).processors ≡ p.processors)
unfolding merge_open_search
merge_sinks_of-keeps none p = (refl, refl)
merge_sinks_of-keeps (some d) p = ground arith

merge_kafka_of-keeps :
    (k : Option DefaultKafkaSpec) (p : PipelineDefinition)
    → ((merge_kafka_of k p).name ≡ p.name) × ((merge_kafka_of k p).processors ≡ p.processors)
merge_kafka_of-keeps none p = (refl, refl)
merge_kafka_of-keeps (some d) p =
    let (codec, name, sink, processors) = merge_kafka-codec d p in (name, processors)

module _ (k : Option DefaultKafkaSpec) (s : Option DefaultSinkSpec) where
  merge_definition-keeps :
      (p : PipelineDefinition)
      → ((merge_definition k s p).name ≡ p.name)
        × ((merge_definition k s p).processors ≡ p.processors)
  merge_definition-keeps p = (
    (merge_sinks_of-keeps s (merge_kafka_of k p)).0 ∙ (merge_kafka_of-keeps k p).0,
    (merge_sinks_of-keeps s (merge_kafka_of k p)).1 ∙ (merge_kafka_of-keeps k p).1,
  )

  map-IsDefinition :
      (ps : List PipelineDefinition)
      → All IsDefinition ps
      → All IsDefinition (map (merge_definition k s) ps)
  map-IsDefinition [] h = tt
  map-IsDefinition (p ∷ ps) h = (
    merge_sinks_of-IsDefinition s (merge_kafka_of k p) (merge_kafka_of-IsDefinition k p h.0),
    map-IsDefinition ps h.1,
  )

  map-names :
      (ps : List PipelineDefinition)
      → definition_names (map (merge_definition k s) ps) ≡ definition_names ps
  map-names [] = refl
  map-names (p ∷ ps) = rw ((merge_definition-keeps p).0, map-names ps) refl

  map-processors :
      (Q : List String → Type 0) (ps : List PipelineDefinition)
      → All (λ p. Q p.processors) ps
      → All (λ p. Q p.processors) (map (merge_definition k s) ps)
  map-processors Q [] h = tt
  map-processors Q (p ∷ ps) h =
      (subst Q (sym (merge_definition-keeps p).1) h.0, map-processors Q ps h.1)

-- The definitions stay as the webhook wants them, with their names and their processors.
pub merge_spec-IsDefinition :
    (d : Option DataPrepperDefaultsSpec) (s : DataPrepperPipelineSpec) (Q : List String → Type 0)
    → All IsDefinition s.pipelines
    → All (λ p. Q p.processors) s.pipelines
    → All IsDefinition (merge_spec d s).pipelines
      × (definition_names (merge_spec d s).pipelines ≡ definition_names s.pipelines)
      × All (λ p. Q p.processors) (merge_spec d s).pipelines
unfolding merge_spec merge_with
merge_spec-IsDefinition none s Q h q = (h, refl, q)
merge_spec-IsDefinition (some d) s Q h q =
    subst
      (λ ps.
        All IsDefinition ps
        × (definition_names ps ≡ definition_names s.pipelines)
        × All (λ p. Q p.processors) ps)
      (sym (merge_all-map d.kafka d.sink s.pipelines))
      (
        map-IsDefinition d.kafka d.sink s.pipelines h,
        map-names d.kafka d.sink s.pipelines,
        map-processors d.kafka d.sink Q s.pipelines q,
      )
