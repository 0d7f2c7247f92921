-- ===== src/Api/Webhook/Accepts.antt =====
-- The webhook accepts exactly the admissible pipelines.
use dataprepper_operator.Base.{
  ℕ, ◌+◌, ◌≤◌, ◌≡◌, ◌≢◌, refl, ◌⊎◌, ◌↔◌, String, len, false, Option, none, some, List, [], ◌∷◌,
  contains, string_eq, nat_eq, orelse_iff, All, OnSome, Distinct, ◌∈◌, arith, map,
}
use dataprepper_operator.Base.Int.{pos, ◌≤ℤ◌}
use dataprepper_operator.Validation.Correct.{IsValidGraph, validate_graph-none_iff}
use dataprepper_operator.Api.Common.{SinkSpec}
use dataprepper_operator.Api.Pipeline.{
  PipelineDefinition, CodecSpec, S3SourceSpec, ScalingSpec, DataPrepperPipelineSpec,
  scaling_mode_manual,
}
use dataprepper_operator.Api.Defaults.{DataPrepperDefaultsSpec}
use dataprepper_operator.Api.Webhook.{
  Reader, validate_image, validate_source_union, validate_codec_of, validate_codec,
  validate_sink_types, validate_sinks, validate_definition, validate_pipeline_definitions,
  graph_defs, validate_pipeline_graph, validate_scaling, validate_nonempty, validate_pipeline,
}
use dataprepper_operator.Api.Webhook.Unions.{
  IsOneSource, IsOneSink, IsAtMostOneCodec, count_source_types_iff, count_sink_types_iff,
  count_codec_types_iff,
}

abbrev DefaultsHaveImage : Option DataPrepperDefaultsSpec → Type 0
DefaultsHaveImage none = ⊥
DefaultsHaveImage (some d) = d.image ≢ ""

abbrev ReaderHasImage : Reader → String → Type 0
ReaderHasImage none namespace = ⊥
ReaderHasImage (some read) namespace =
    (namespace ≢ "") × DefaultsHaveImage (read namespace "default")

-- The image comes from the spec, or from the "default" object of its namespace.
abbrev pub HasImage : Reader → String → DataPrepperPipelineSpec → Type 0
HasImage reader namespace spec = (spec.image ≢ "") ⊎ ReaderHasImage reader namespace

-- A pipeline definition, apart from the others of its list.
pub record IsDefinition (pd : PipelineDefinition) : Type 0 where
  pub named : pd.name ≢ ""
  pub one_source : IsOneSource pd.source
  pub has_sink : pd.sink ≢ []
  pub one_sink_each : All IsOneSink pd.sink
  pub codec : OnSome (λ s. OnSome IsAtMostOneCodec s.codec) pd.source.s3

pub record IsScaling (s : ScalingSpec) : Type 0 where
  pub fixed : s.mode ≡ scaling_mode_manual → OnSome (λ n. pos 1 ≤ℤ n) s.fixed_replicas
  pub ordered : OnSome (λ lo. OnSome (λ hi. lo ≤ℤ hi) s.max_replicas) s.min_replicas

abbrev pub definition_names : List PipelineDefinition → List String
definition_names = map (λ pd. pd.name)

pub record IsAdmissible (reader : Reader) (name namespace : String) (spec : DataPrepperPipelineSpec)
    : Type 0 where
  pub name_fits : len name ≤ 244
  pub image : HasImage reader namespace spec
  pub some_pipeline : spec.pipelines ≢ []
  pub definitions : All IsDefinition spec.pipelines
  pub distinct : Distinct (definition_names spec.pipelines)
  pub graph : IsValidGraph (graph_defs spec.pipelines)
  pub scaling : OnSome IsScaling spec.scaling

validate_image_iff :
    (reader : Reader) (namespace : String) (spec : DataPrepperPipelineSpec)
    → (validate_image reader namespace spec ≡ none) ↔ HasImage reader namespace spec
unfolding validate_image
validate_image_iff none namespace spec = ground arith
validate_image_iff (some read) namespace spec = ground arith

validate_source_union_iff :
    (pd : PipelineDefinition) → (validate_source_union pd ≡ none) ↔ IsOneSource pd.source
unfolding validate_source_union
validate_source_union_iff pd = ground (arith, count_source_types_iff pd.source)

validate_codec_of_iff :
    (name : String) (o : Option CodecSpec)
    → (validate_codec_of name o ≡ none) ↔ OnSome IsAtMostOneCodec o
unfolding validate_codec_of
validate_codec_of_iff name none = ground arith
validate_codec_of_iff name (some c) = ground (arith, count_codec_types_iff c)

validate_codec_iff :
    (name : String) (o : Option S3SourceSpec)
    → (validate_codec name o ≡ none) ↔ OnSome (λ s. OnSome IsAtMostOneCodec s.codec) o
unfolding validate_codec
validate_codec_iff name none = ground arith
validate_codec_iff name (some s3) = validate_codec_of_iff name s3.codec

validate_sink_types_iff :
    (name : String) (j : ℕ) (ss : List SinkSpec)
    → (validate_sink_types name j ss ≡ none) ↔ All IsOneSink ss
unfolding validate_sink_types
validate_sink_types_iff name j [] = (λ h. tt, λ h. refl)
validate_sink_types_iff name j (s ∷ ss) =
    ground (arith, count_sink_types_iff s, validate_sink_types_iff name (j + 1) ss)

validate_sinks_iff :
    (name : String) (ss : List SinkSpec) → (validate_sinks name ss ≡ none) ↔ (ss ≢ [])
unfolding validate_sinks
validate_sinks_iff name [] = ground arith
validate_sinks_iff name (s ∷ ss) = ground arith

validate_definition_iff :
    (names : List String) (i : ℕ) (pd : PipelineDefinition)
    → (validate_definition names i pd ≡ none) ↔ (IsDefinition pd × (contains names pd.name ≡ false))
unfolding validate_definition
validate_definition_iff names i pd = ground (
  arith,
  validate_source_union_iff pd,
  validate_sinks_iff pd.name pd.sink,
  validate_codec_iff pd.name pd.source.s3,
  validate_sink_types_iff pd.name 0 pd.sink,
)

validate_scaling_iff : (o : Option ScalingSpec) → (validate_scaling o ≡ none) ↔ OnSome IsScaling o
unfolding validate_scaling
validate_scaling_iff none = ground arith
validate_scaling_iff (some s) = ground arith

validate_definitions_iff :
    (names : List String) (i : ℕ) (pds : List PipelineDefinition)
    → (validate_pipeline_definitions names i pds ≡ none) ↔ (
        All IsDefinition pds
        × Distinct (definition_names pds)
        × ((n : String) → n ∈ definition_names pds → contains names n ≡ false))
unfolding validate_pipeline_definitions
validate_definitions_iff names i [] = (λ h. (tt, tt, λ n m. cc), λ h. refl)
validate_definitions_iff names i (pd ∷ pds) =
    let first = validate_definition_iff names i pd in
    let rest = validate_definitions_iff (pd.name ∷ names) (i + 1) pds in
    (
      λ h.
          let (a, b) = (orelse_iff _ _).0 h in
          let (good, new) = first.0 a in
          let (all, distinct, out) = rest.0 b in
          ((good, all), (ground (arith, out pd.name), distinct), λ n m. ground (arith, new, out n)),
      λ (all, distinct, out). (orelse_iff _ _).1 (
        first.1 (all.0, out pd.name (ground arith)),
        rest.1 (all.1, distinct.1, λ n m. ground (arith, out n)),
      ),
    )

validate_pipeline_graph_iff :
    (pds : List PipelineDefinition)
    → (validate_pipeline_graph pds ≡ none) ↔ IsValidGraph (graph_defs pds)
unfolding validate_pipeline_graph
validate_pipeline_graph_iff pds = ground (arith, validate_graph-none_iff (graph_defs pds))

validate_nonempty_iff :
    (pds : List PipelineDefinition) → (validate_nonempty pds ≡ none) ↔ (pds ≢ [])
unfolding validate_nonempty
validate_nonempty_iff [] = ground arith
validate_nonempty_iff (pd ∷ pds) = ground arith

-- The webhook accepts a pipeline exactly if its name leaves room for the headless service, it has
-- an image of its own or by default, at least one definition, each with a name of its own, one
-- source, at least one sink, one type to each sink and at most one codec, a valid graph, and
-- bounds for its replicas that are in order.
pub validate_pipeline-none_iff :
    (reader : Reader) (name namespace : String) (spec : DataPrepperPipelineSpec)
    → (validate_pipeline reader name namespace spec ≡ none)
      ↔ IsAdmissible reader name namespace spec
unfolding validate_pipeline
validate_pipeline-none_iff reader name namespace spec =
    let image = validate_image_iff reader namespace spec in
    let some_pipeline = validate_nonempty_iff spec.pipelines in
    let definitions = validate_definitions_iff [] 0 spec.pipelines in
    let graph = validate_pipeline_graph_iff spec.pipelines in
    let scaling = validate_scaling_iff spec.scaling in
    ground (arith, image, some_pipeline, definitions, graph, scaling)
