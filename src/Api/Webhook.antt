-- ===== src/Api/Webhook.antt =====
-- The validating webhook, api/v1alpha1/dataprepperpipeline_webhook.go.
-- The reader of DataPrepperDefaults is a parameter, as a function of namespace and name that gives
-- nothing where the read fails; it is `none` where `webhookReader` is nil. Warnings are always nil.
pub mod Unions
pub mod Accepts
use dataprepper_operator.Base.{
  ℕ, zero, suc, ◌+◌, String, len, Bool, true, false, not, ◌&&◌, Option, none, some, List, [], ◌∷◌,
  map, ◌==◌, contains, string_eq, nat_eq, if◌then◌else◌, ltb, is_set, orelse,
}
use dataprepper_operator.Base.Int.{ℤ, pos, ltb_ℤ}
use dataprepper_operator.Validation.{PipelineDef, GraphError, validate_graph}
use dataprepper_operator.Api.Common.{SinkSpec}
use dataprepper_operator.Api.Defaults.{DataPrepperDefaultsSpec}
use dataprepper_operator.Api.Pipeline.{
  SourceSpec, CodecSpec, S3SourceSpec, PipelineDefinition, ScalingSpec, DataPrepperPipelineSpec,
  scaling_mode_manual,
}

pub data WebhookError : Type 0 where
  name_too_long : ℕ → WebhookError
  image_required pipelines_empty : WebhookError
  name_required : (i : ℕ) → WebhookError
  duplicate_name no_sink : (name : String) → WebhookError
  source_union codec_union : (name : String) (count : ℕ) → WebhookError
  sink_union : (name : String) (j count : ℕ) → WebhookError
  graph_invalid : GraphError → WebhookError
  fixed_replicas_below_one max_below_min : WebhookError

abbrev pub Reader : Type 0
Reader = Option (String → String → Option DataPrepperDefaultsSpec)

abbrev pub one_if : Bool → ℕ
one_if true = 1
one_if false = 0

unfoldable pub count_source_types : SourceSpec → ℕ
count_source_types s =
    one_if (is_set s.kafka)
    + one_if (is_set s.http)
    + one_if (is_set s.otel)
    + one_if (is_set s.s3)
    + one_if (is_set s.pipeline)

unfoldable pub count_codec_types : CodecSpec → ℕ
count_codec_types c =
    one_if (is_set c.json)
    + one_if (is_set c.csv)
    + one_if (is_set c.newline)
    + one_if (is_set c.parquet)
    + one_if (is_set c.avro)

unfoldable pub count_sink_types : SinkSpec → ℕ
count_sink_types s =
    one_if (is_set s.open_search)
    + one_if (is_set s.pipeline)
    + one_if (is_set s.s3)
    + one_if (is_set s.kafka)
    + one_if (is_set s.stdout)

validate_image : Reader → String → DataPrepperPipelineSpec → Option WebhookError
validate_image reader namespace spec = if not (spec.image == "") then none else elim reader [
  | none ↦ some image_required
  | some read ↦ if namespace == "" then some image_required else elim (read namespace "default") [
    | none ↦ some image_required
    | some d ↦ if d.image == "" then some image_required else none
  ]
]

validate_source_union : PipelineDefinition → Option WebhookError
unfolding count_source_types
validate_source_union pd =
    let count = count_source_types pd.source in
    if count == 1 then none else some (source_union pd.name count)

validate_codec_of : String → Option CodecSpec → Option WebhookError
unfolding count_codec_types
validate_codec_of name none = none
validate_codec_of name (some c) =
    let count = count_codec_types c in if ltb 1 count then some (codec_union name count) else none

validate_codec : String → Option S3SourceSpec → Option WebhookError
unfolding validate_codec_of
validate_codec name none = none
validate_codec name (some s3) = validate_codec_of name s3.codec

validate_sink_types : String → ℕ → List SinkSpec → Option WebhookError
unfolding count_sink_types
validate_sink_types name j [] = none
validate_sink_types name j (s ∷ ss) =
    let count = count_sink_types s in
    if count == 1 then validate_sink_types name (j + 1) ss else some (sink_union name j count)

validate_sinks : String → List SinkSpec → Option WebhookError
validate_sinks name [] = some (no_sink name)
validate_sinks name (s ∷ ss) = none

-- The body of the loop over the pipelines.
validate_definition : List String → ℕ → PipelineDefinition → Option WebhookError
unfolding validate_source_union validate_codec validate_sink_types validate_sinks
validate_definition names i pd =
    if pd.name == ""
    then some (name_required i)
    else if contains names pd.name
    then some (duplicate_name pd.name)
    else orelse (validate_source_union pd) (
        orelse (validate_sinks pd.name pd.sink)
          (orelse (validate_codec pd.name pd.source.s3) (validate_sink_types pd.name 0 pd.sink)))

validate_pipeline_definitions : List String → ℕ → List PipelineDefinition → Option WebhookError
unfolding validate_definition
validate_pipeline_definitions names i [] = none
validate_pipeline_definitions names i (pd ∷ pds) =
    orelse (validate_definition names i pd)
      (validate_pipeline_definitions (pd.name ∷ names) (i + 1) pds)

-- The names of the pipeline connectors among the sinks.
unfoldable pub sink_names : List SinkSpec → List String
sink_names [] = []
sink_names (s ∷ ss) =
    let rest = sink_names ss in elim s.pipeline [ none ↦ rest | some c ↦ c.name ∷ rest ]

unfoldable pub graph_def : PipelineDefinition → PipelineDef
unfolding sink_names
graph_def pd = record {
  name = pd.name;
  source_pipeline = elim pd.source.pipeline [ none ↦ "" | some c ↦ c.name ];
  sink_pipelines = sink_names pd.sink;
}

unfoldable pub graph_defs : List PipelineDefinition → List PipelineDef
unfolding graph_def
graph_defs [] = []
graph_defs (pd ∷ pds) = graph_def pd ∷ graph_defs pds

validate_pipeline_graph : List PipelineDefinition → Option WebhookError
validate_pipeline_graph pds = elim (validate_graph (graph_defs pds)) [
  | none ↦ none
  | some e ↦ some (graph_invalid e)
]

abbrev below : Option ℤ → ℤ → Bool
below none b = false
below (some a) b = ltb_ℤ a b

abbrev both_below : Option ℤ → Option ℤ → Bool
both_below a none = false
both_below a (some b) = below a b

validate_scaling : Option ScalingSpec → Option WebhookError
validate_scaling none = none
validate_scaling (some s) =
    if s.mode == scaling_mode_manual && below s.fixed_replicas (pos 1)
    then some fixed_replicas_below_one
    else if both_below s.max_replicas s.min_replicas
    then some max_below_min
    else none

validate_nonempty : List PipelineDefinition → Option WebhookError
validate_nonempty [] = some pipelines_empty
validate_nonempty (pd ∷ pds) = none

unfoldable pub validate_pipeline :
    Reader → (name namespace : String) → DataPrepperPipelineSpec → Option WebhookError
unfolding validate_image validate_nonempty validate_pipeline_definitions validate_pipeline_graph
    validate_scaling
validate_pipeline reader name namespace spec =
    if ltb 244 (len name)
    then some (name_too_long (len name))
    else orelse (validate_image reader namespace spec) (
        orelse (validate_nonempty spec.pipelines) (
          orelse (validate_pipeline_definitions [] 0 spec.pipelines)
            (orelse (validate_pipeline_graph spec.pipelines) (validate_scaling spec.scaling))))
