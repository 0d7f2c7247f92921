-- ===== src/Defaults/Laws.antt =====
-- What the merge of defaults changes, and what it keeps.
use dataprepper_operator.Base.{
  ◌≡◌, ◌≢◌, refl, ◌∙◌, ap, String, Option, none, some, List, [], ◌∷◌, map, string_eq, arith,
  Option-cases, inl, inr,
}
use dataprepper_operator.Validation.{validate_graph}
use dataprepper_operator.Validation.Correct.{validate_graph-none_iff}
use dataprepper_operator.Api.Common.{OpenSearchSinkSpec, SinkSpec}
use dataprepper_operator.Api.Defaults.{DefaultKafkaSpec, DefaultSinkSpec, DataPrepperDefaultsSpec}
use dataprepper_operator.Api.Pipeline.{PipelineDefinition, DataPrepperPipelineSpec}
use dataprepper_operator.Api.Webhook.{Reader, sink_names, graph_def, graph_defs, validate_pipeline}
use dataprepper_operator.Api.Webhook.Accepts.{validate_pipeline-none_iff}
use dataprepper_operator.Defaults.{
  merge_kafka, merge_sink, merge_open_search, merge_all_kafka, merge_all_sinks, merge_with,
  merge_spec,
}
use dataprepper_operator.Defaults.Shape.{
  map_idem, merge_definition, merge_all-map, merge_definition_idem, or_default_idem,
}

-- Merging the same defaults a second time changes nothing.
pub merge_spec_idem :
    (d : Option DataPrepperDefaultsSpec) (s : DataPrepperPipelineSpec)
    → merge_spec d (merge_spec d s) ≡ merge_spec d s
unfolding merge_spec merge_with
merge_spec_idem none s = refl
merge_spec_idem (some d) s = ground (
  arith,
  or_default_idem s.resources d.resources,
  or_default_idem s.data_prepper_config d.data_prepper_config,
  or_default_idem s.service_monitor d.service_monitor,
  pipelines,
)
  where
    pipelines :
        merge_all_sinks d.sink
          (merge_all_kafka d.kafka (merge_all_sinks d.sink (merge_all_kafka d.kafka s.pipelines)))
        ≡ merge_all_sinks d.sink (merge_all_kafka d.kafka s.pipelines)
    pipelines =
        rw (merge_all-map d.kafka d.sink s.pipelines, merge_all-map d.kafka d.sink)
          (map_idem (merge_definition d.kafka d.sink) s.pipelines
            (merge_definition_idem d.kafka d.sink))

sink_names-merge_sink :
    (d : OpenSearchSinkSpec) (ss : List SinkSpec)
    → sink_names (map (merge_sink d) ss) ≡ sink_names ss
unfolding sink_names merge_sink
sink_names-merge_sink d [] = refl
sink_names-merge_sink d (s ∷ ss) = ground (arith, sink_names-merge_sink d ss)

graph_def-merge_definition :
    (k : Option DefaultKafkaSpec) (o : Option DefaultSinkSpec) (p : PipelineDefinition)
    → graph_def (merge_definition k o p) ≡ graph_def p
unfolding graph_def merge_kafka merge_open_search
graph_def-merge_definition none none p = refl
graph_def-merge_definition (some d) none p = ground arith
graph_def-merge_definition none (some e) p = elim (Option-cases e.open_search) [
  | inl h ↦ ground arith
  | inr (o, h) ↦ ground (arith, sink_names-merge_sink o p.sink)
]
graph_def-merge_definition (some d) (some e) p = elim (Option-cases e.open_search) [
  | inl h ↦ ground arith
  | inr (o, h) ↦ ground (arith, sink_names-merge_sink o p.sink)
]

graph_defs-map :
    (k : Option DefaultKafkaSpec) (o : Option DefaultSinkSpec) (ps : List PipelineDefinition)
    → graph_defs (map (merge_definition k o) ps) ≡ graph_defs ps
unfolding graph_defs
graph_defs-map k o [] = refl
graph_defs-map k o (p ∷ ps) =
    ground (arith, graph_def-merge_definition k o p, graph_defs-map k o ps)

-- The merge leaves the graph of the definitions as it is.
pub graph_defs-merge_spec :
    (d : Option DataPrepperDefaultsSpec) (s : DataPrepperPipelineSpec)
    → graph_defs (merge_spec d s).pipelines ≡ graph_defs s.pipelines
unfolding merge_spec merge_with
graph_defs-merge_spec none s = refl
graph_defs-merge_spec (some d) s =
    ap graph_defs (merge_all-map d.kafka d.sink s.pipelines)
    ∙ graph_defs-map d.kafka d.sink s.pipelines

-- A pipeline that the webhook accepts passes the graph check of the reconciler, whatever the
-- defaults are by then.
pub merge_spec-validate_graph :
    (reader : Reader) (name namespace : String) (d : Option DataPrepperDefaultsSpec)
    (s : DataPrepperPipelineSpec)
    → validate_pipeline reader name namespace s ≡ none
    → validate_graph (graph_defs (merge_spec d s).pipelines) ≡ none
merge_spec-validate_graph reader name namespace d s h = rw graph_defs-merge_spec (
    (validate_graph-none_iff (graph_defs s.pipelines)).1
      ((validate_pipeline-none_iff reader name namespace s).0 h).graph)

-- A pipeline that the webhook accepts with the defaults of its namespace at hand has an image once
-- those defaults are merged in.
pub merge_spec-image :
    (read : String → String → Option DataPrepperDefaultsSpec) (name namespace : String)
    (s : DataPrepperPipelineSpec)
    → validate_pipeline (some read) name namespace s ≡ none
    → (merge_spec (read namespace "default") s).image ≢ ""
unfolding merge_spec merge_with
merge_spec-image read name namespace s h =
    ground (arith, ((validate_pipeline-none_iff (some read) name namespace s).0 h).image)
