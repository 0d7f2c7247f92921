-- ===== src/Tests/Samples.antt =====
-- The objects of the tests: two pipelines that are joined by a connector.
use dataprepper_operator.Base.{
  ◌≡◌, refl, string_eq, ℕ_discrete, String, Option, none, some, List, [], ◌∷◌,
}
use dataprepper_operator.Base.Int.{pos}
use dataprepper_operator.Base.Dict.{lookup, insert}
use dataprepper_operator.Api.Webhook.{validate_pipeline, graph_defs}
use dataprepper_operator.Api.Json.{Value, obj, end}
use dataprepper_operator.Api.Common.{SecretReference, SinkSpec, OpenSearchSinkSpec, stdout_sink}
use dataprepper_operator.Api.Defaults.{DataPrepperDefaultsSpec}
use dataprepper_operator.Api.Pipeline.{
  KafkaSourceSpec, SourceSpec, PipelineDefinition, DataPrepperPipelineSpec,
}
use dataprepper_operator.Validation.{PipelineDef, validate_graph}

abbrev pub no_source : SourceSpec
no_source = record { kafka = none; http = none; otel = none; s3 = none; pipeline = none }

abbrev pub no_sink : SinkSpec
no_sink = record { open_search = none; pipeline = none; s3 = none; kafka = none; stdout = none }

abbrev pub secret : String → Option SecretReference
secret name = some (record { name = name; key = "" })

abbrev pub topic_source : KafkaSourceSpec
topic_source = record {
  bootstrap_servers = "kafka:9092" ∷ [];
  topic = "logs";
  group_id = "dp";
  credentials_secret_ref = secret "kafka-creds";
  consumer_config = [];
  encryption_type = "";
}

abbrev pub store : OpenSearchSinkSpec
store = record {
  hosts = "https://os:9200" ∷ [];
  index = "logs";
  index_type = "";
  credentials_secret_ref = secret "os-creds";
  dlq_secret_ref = none;
  routes = [];
}

-- Reads the topic and hands its events on.
abbrev pub reading : PipelineDefinition
reading = record {
  name = "entry";
  workers = pos 2;
  delay = pos 0;
  source = record no_source { kafka = some topic_source };
  buffer = none;
  processors = "{}" ∷ [];
  routes = [];
  sink = record no_sink { pipeline = some (record { name = "store" }) } ∷ [];
}

abbrev pub storing : PipelineDefinition
storing = record {
  name = "store";
  workers = pos 0;
  delay = pos 0;
  source = record no_source { pipeline = some (record { name = "entry" }) };
  buffer = none;
  processors = [];
  routes = [];
  sink =
      record no_sink { open_search = some store }
      ∷ record no_sink { stdout = some stdout_sink }
      ∷ [];
}

abbrev pub listening : PipelineDefinition
listening = record storing {
  source = record no_source { http = some (record { port = pos 2021; path = "" }) };
}

abbrev pub two_pipelines : DataPrepperPipelineSpec
two_pipelines = record {
  image = "";
  image_pull_policy = "";
  pipelines = reading ∷ storing ∷ [];
  scaling = none;
  resources = none;
  data_prepper_config = none;
  service_monitor = none;
  pod_annotations = [];
  pod_labels = [];
  node_selector = [];
  tolerations = [];
  affinity = none;
  pod_security_context = none;
  security_context = none;
  service_account_name = "";
}

abbrev pub with_image : DataPrepperDefaultsSpec
with_image = record {
  image = "data-prepper:2";
  sink = none;
  kafka = some (record { bootstrap_servers = "kafka:9092" ∷ []; credentials_secret_ref = none });
  resources = none;
  data_prepper_config = none;
  service_monitor = none;
}

-- A cluster whose namespaces all have these defaults.
abbrev pub read_defaults : String → String → Option DataPrepperDefaultsSpec
read_defaults namespace name = some with_image

-- The only JSON text of the tests is "{}".
abbrev pub read_json : String → Option Value
read_json text = some (obj end)

abbrev pub chain : List PipelineDef
chain =
    record { name = "a"; source_pipeline = ""; sink_pipelines = "b" ∷ [] }
    ∷ record { name = "b"; source_pipeline = "a"; sink_pipelines = [] }
    ∷ []

abbrev pub loop : List PipelineDef
loop =
    record { name = "a"; source_pipeline = "b"; sink_pipelines = "b" ∷ [] }
    ∷ record { name = "b"; source_pipeline = "a"; sink_pipelines = "a" ∷ [] }
    ∷ []

-- The webhook takes the two pipelines, by the image of the defaults.
pub accepted : validate_pipeline (some read_defaults) "logs" "prod" two_pipelines ≡ none
unfolding validate_pipeline string_eq ℕ_discrete validate_graph graph_defs lookup insert
accepted = refl
