-- ===== src/Discovery/Template.antt =====
-- The specification of a generated pipeline: renderPipelineSpec, applyOverride and
-- inheritKafkaDiscoveryConfig of datapreppersourcediscovery_controller.go. `instantiate` stands for
-- json.Marshal, text/template and json.Unmarshal, and `glob` for filepath.Match.
pub mod Laws
use dataprepper_operator.Base.{
  String, Bool, not, if◌then◌else◌, ◌==◌, string_eq, Option, none, some, List, [], ◌∷◌, map,
}
use dataprepper_operator.Base.Dict.{Dict, copy_into}
use dataprepper_operator.Base.Result.{Result, ok, err, ◌>>=◌}
use dataprepper_operator.Api.Pipeline.{DataPrepperPipelineSpec, PipelineDefinition, KafkaSourceSpec}
use dataprepper_operator.Api.Discovery.{
  KafkaDiscoverySpec, DiscoveryOverrideSpec, DataPrepperSourceDiscoverySpec,
}
use dataprepper_operator.Defaults.{or_default, or_list}
use dataprepper_operator.Discovery.Sources.{DiscoveredSource, matches}

-- `if override != "" { base = override }`
abbrev pub override_text : String → String → String
override_text over base = if not (over == "") then over else base

unfoldable pub apply_override :
    DataPrepperPipelineSpec → DataPrepperPipelineSpec → DataPrepperPipelineSpec
apply_override base over = record base {
  image = override_text over.image base.image;
  image_pull_policy = override_text over.image_pull_policy base.image_pull_policy;
  scaling = or_default over.scaling base.scaling;
  resources = or_default over.resources base.resources;
  data_prepper_config = or_default over.data_prepper_config base.data_prepper_config;
  service_monitor = or_default over.service_monitor base.service_monitor;
  pipelines = or_list over.pipelines base.pipelines;
  pod_annotations = copy_into base.pod_annotations over.pod_annotations;
  pod_labels = copy_into base.pod_labels over.pod_labels;
  node_selector = copy_into base.node_selector over.node_selector;
}

unfoldable pub inherit_kafka_source : KafkaDiscoverySpec → KafkaSourceSpec → KafkaSourceSpec
inherit_kafka_source d k = record k {
  bootstrap_servers = or_list k.bootstrap_servers d.bootstrap_servers;
  credentials_secret_ref = or_default k.credentials_secret_ref d.credentials_secret_ref;
  encryption_type = override_text k.encryption_type d.encryption_type;
}

unfoldable pub inherit_kafka_definition :
    KafkaDiscoverySpec → PipelineDefinition → PipelineDefinition
unfolding inherit_kafka_source
inherit_kafka_definition d p = elim p.source.kafka [
  | none ↦ p
  | some k ↦ record p { source = record p.source { kafka = some (inherit_kafka_source d k) } }
]

unfoldable pub inherit_kafka_discovery_config :
    KafkaDiscoverySpec → DataPrepperPipelineSpec → DataPrepperPipelineSpec
unfolding inherit_kafka_definition
inherit_kafka_discovery_config d s = record s {
  pipelines = map (inherit_kafka_definition d) s.pipelines;
}

abbrev pub inherit_from :
    Option KafkaDiscoverySpec → DataPrepperPipelineSpec → DataPrepperPipelineSpec
unfolding inherit_kafka_discovery_config
inherit_from none s = s
inherit_from (some d) s = inherit_kafka_discovery_config d s

-- What renders the template for a source.
abbrev pub Renderer : Type 0
Renderer = DataPrepperPipelineSpec → DiscoveredSource → Result String DataPrepperPipelineSpec

module _ (instantiate : Renderer) (glob : String → String → Option Bool) where
  unfoldable pub apply_matching :
      List DiscoveryOverrideSpec → String → DataPrepperPipelineSpec → DataPrepperPipelineSpec
  unfolding apply_override
  apply_matching [] name spec = spec
  apply_matching (o ∷ os) name spec =
      apply_matching os name
        (if matches glob o.pattern name then apply_override spec o.spec else spec)

  unfoldable pub render_pipeline_spec :
      DataPrepperSourceDiscoverySpec → DiscoveredSource → Result String DataPrepperPipelineSpec
  unfolding apply_matching
  render_pipeline_spec disc source = instantiate disc.pipeline_template.spec source >>= λ spec.
      ok (inherit_from disc.kafka (apply_matching disc.overrides source.name spec))
