-- ===== src/Defaults.antt =====
-- The merge of namespace defaults into a pipeline, internal/defaults/merger.go.
-- The two inputs are values, so the deep copies of the source are the values themselves.
pub mod Shape
pub mod Keeps
pub mod Preference
pub mod Precedence
pub mod Laws
use dataprepper_operator.Base.{
  String, Bool, true, false, not, ◌&&◌, Option, none, some, List, [], ◌∷◌, map, ◌==◌, string_eq,
  if◌then◌else◌,
}
use dataprepper_operator.Api.Common.{SecretReference, OpenSearchSinkSpec, SinkSpec}
use dataprepper_operator.Api.Defaults.{DefaultKafkaSpec, DefaultSinkSpec, DataPrepperDefaultsSpec}
use dataprepper_operator.Api.Pipeline.{
  KafkaSourceSpec, SourceSpec, PipelineDefinition, DataPrepperPipelineSpec,
}

-- `if out.X == nil && defaults.X != nil { out.X = defaults.X.DeepCopy() }`
abbrev pub or_default {ℓ} : {A : Type ℓ} → Option A → Option A → Option A
or_default none d = d
or_default (some a) d = some a

-- `if len(xs) == 0 && len(ds) > 0 { xs = ds }`
abbrev pub or_list {ℓ} : {A : Type ℓ} → List A → List A → List A
or_list [] ds = ds
or_list (x ∷ xs) ds = x ∷ xs

pub merge_kafka_source : DefaultKafkaSpec → KafkaSourceSpec → KafkaSourceSpec
merge_kafka_source d k = record k {
  bootstrap_servers = or_list k.bootstrap_servers d.bootstrap_servers;
  credentials_secret_ref = or_default k.credentials_secret_ref d.credentials_secret_ref;
}

-- The loop over the Kafka sources, for one pipeline.
pub merge_kafka : DefaultKafkaSpec → PipelineDefinition → PipelineDefinition
unfolding merge_kafka_source
merge_kafka d p = elim p.source.kafka [
  | none ↦ p
  | some k ↦ record p { source = record p.source { kafka = some (merge_kafka_source d k) } }
]

pub merge_open_search_sink : OpenSearchSinkSpec → OpenSearchSinkSpec → OpenSearchSinkSpec
merge_open_search_sink d o = record o {
  hosts = or_list o.hosts d.hosts;
  credentials_secret_ref = or_default o.credentials_secret_ref d.credentials_secret_ref;
}

pub merge_sink : OpenSearchSinkSpec → SinkSpec → SinkSpec
unfolding merge_open_search_sink
merge_sink d s = elim s.open_search [
  | none ↦ s
  | some o ↦ record s { open_search = some (merge_open_search_sink d o) }
]

-- The loop over the OpenSearch sinks, for one pipeline.
pub merge_open_search : OpenSearchSinkSpec → PipelineDefinition → PipelineDefinition
unfolding merge_sink
merge_open_search d p = record p { sink = map (merge_sink d) p.sink }

pub merge_all_kafka : Option DefaultKafkaSpec → List PipelineDefinition → List PipelineDefinition
unfolding merge_kafka
merge_all_kafka none ps = ps
merge_all_kafka (some d) ps = map (merge_kafka d) ps

pub merge_all_sinks : Option DefaultSinkSpec → List PipelineDefinition → List PipelineDefinition
unfolding merge_open_search
merge_all_sinks none ps = ps
merge_all_sinks (some d) ps = elim d.open_search [
  | none ↦ ps
  | some o ↦ map (merge_open_search o) ps
]

pub merge_with : DataPrepperDefaultsSpec → DataPrepperPipelineSpec → DataPrepperPipelineSpec
unfolding merge_all_kafka merge_all_sinks
merge_with d s = record s {
  image = if s.image == "" && not (d.image == "") then d.image else s.image;
  resources = or_default s.resources d.resources;
  data_prepper_config = or_default s.data_prepper_config d.data_prepper_config;
  service_monitor = or_default s.service_monitor d.service_monitor;
  pipelines = merge_all_sinks d.sink (merge_all_kafka d.kafka s.pipelines);
}

unfoldable pub merge_spec :
    Option DataPrepperDefaultsSpec → DataPrepperPipelineSpec → DataPrepperPipelineSpec
unfolding merge_with
merge_spec none s = s
merge_spec (some d) s = merge_with d s
