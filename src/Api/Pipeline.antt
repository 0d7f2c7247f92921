-- ===== src/Api/Pipeline.antt =====
-- api/v1alpha1/dataprepperpipeline_types.go
use dataprepper_operator.Base.{String, Bool, List, Option}
use dataprepper_operator.Base.Dict.{Dict}
use dataprepper_operator.Base.Int.{ℤ}
use dataprepper_operator.Api.Json.{Value}
use dataprepper_operator.Api.Common.{
  SecretReference, PerReplicaResources, ServiceMonitorSpec, SinkSpec, BufferSpec,
  DataPrepperConfigSpec,
}

pub record KafkaSourceSpec : Type 0 where
  pub bootstrap_servers : List String
  pub topic : String
  pub group_id : String
  pub credentials_secret_ref : Option SecretReference
  pub consumer_config : Dict String
  pub encryption_type : String

pub record HttpSourceSpec : Type 0 where
  pub port : ℤ
  pub path : String

pub record OTelSourceSpec : Type 0 where
  pub port : ℤ
  pub protocols : List String

pub data JsonCodecSpec : Type 0 where
  json_codec : JsonCodecSpec

pub record CsvCodecSpec : Type 0 where
  pub delimiter : String
  pub header_row : Bool

pub data NewlineCodecSpec : Type 0 where
  newline_codec : NewlineCodecSpec

pub data ParquetCodecSpec : Type 0 where
  parquet_codec : ParquetCodecSpec

pub record AvroCodecSpec : Type 0 where
  pub schema : String

pub record CodecSpec : Type 0 where
  pub json : Option JsonCodecSpec
  pub csv : Option CsvCodecSpec
  pub newline : Option NewlineCodecSpec
  pub parquet : Option ParquetCodecSpec
  pub avro : Option AvroCodecSpec

pub record S3SourceSpec : Type 0 where
  pub bucket : String
  pub prefix : String
  pub region : String
  pub sqs_queue_url : String
  pub credentials_secret_ref : Option SecretReference
  pub codec : Option CodecSpec
  pub compression : String

pub record PipelineConnectorSourceSpec : Type 0 where
  pub name : String

pub record SourceSpec : Type 0 where
  pub kafka : Option KafkaSourceSpec
  pub http : Option HttpSourceSpec
  pub otel : Option OTelSourceSpec
  pub s3 : Option S3SourceSpec
  pub pipeline : Option PipelineConnectorSourceSpec

-- A processor is the text of an `apiextensionsv1.JSON`.
pub record PipelineDefinition : Type 0 where
  pub name : String
  pub workers : ℤ
  pub delay : ℤ
  pub source : SourceSpec
  pub buffer : Option BufferSpec
  pub processors : List String
  pub routes : List (Dict String)
  pub sink : List SinkSpec

abbrev pub scaling_mode_auto : String
scaling_mode_auto = "auto"

abbrev pub scaling_mode_manual : String
scaling_mode_manual = "manual"

pub record ScalingSpec : Type 0 where
  pub mode : String
  pub max_replicas : Option ℤ
  pub min_replicas : Option ℤ
  pub fixed_replicas : Option ℤ

pub record DataPrepperPipelineSpec : Type 0 where
  pub image : String
  pub image_pull_policy : String
  pub pipelines : List PipelineDefinition
  pub scaling : Option ScalingSpec
  pub resources : Option PerReplicaResources
  pub data_prepper_config : Option DataPrepperConfigSpec
  pub service_monitor : Option ServiceMonitorSpec
  pub pod_annotations : Dict String
  pub pod_labels : Dict String
  pub node_selector : Dict String
  pub tolerations : List Value
  pub affinity : Option Value
  pub pod_security_context : Option Value
  pub security_context : Option Value
  pub service_account_name : String

-- `unset` is the empty string, the phase of an object that was never reconciled.
pub data PipelinePhase : Type 0 where
  unset pending running degraded error : PipelinePhase

pub record KafkaStatus : Type 0 where
  pub topic_partitions : ℤ
  pub workers_per_pod : ℤ
  pub total_consumers : ℤ
