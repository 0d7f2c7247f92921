-- ===== src/Api/Common.antt =====
-- api/v1alpha1/common_types.go
use dataprepper_operator.Base.{String, Bool, List, Option}
use dataprepper_operator.Base.Dict.{Dict}
use dataprepper_operator.Base.Int.{ℤ}

pub record SecretReference : Type 0 where
  pub name : String
  pub key : String

-- A `corev1.ResourceList` maps resource names to quantities.
pub record ResourceRequirements : Type 0 where
  pub requests : Dict String
  pub limits : Dict String

pub record PerReplicaResources : Type 0 where
  pub per_replica : ResourceRequirements

pub record ServiceMonitorSpec : Type 0 where
  pub enabled : Bool
  pub interval : String

pub record OpenSearchSinkSpec : Type 0 where
  pub hosts : List String
  pub index : String
  pub index_type : String
  pub credentials_secret_ref : Option SecretReference
  pub dlq_secret_ref : Option SecretReference
  pub routes : List String

pub record PipelineConnectorSinkSpec : Type 0 where
  pub name : String

pub record S3SinkSpec : Type 0 where
  pub bucket : String
  pub region : String
  pub key_path_prefix : String
  pub codec : String
  pub compression : String
  pub credentials_secret_ref : Option SecretReference

pub record KafkaSinkSpec : Type 0 where
  pub bootstrap_servers : List String
  pub topic : String
  pub serde_format : String
  pub credentials_secret_ref : Option SecretReference

pub data StdoutSinkSpec : Type 0 where
  stdout_sink : StdoutSinkSpec

pub record SinkSpec : Type 0 where
  pub open_search : Option OpenSearchSinkSpec
  pub pipeline : Option PipelineConnectorSinkSpec
  pub s3 : Option S3SinkSpec
  pub kafka : Option KafkaSinkSpec
  pub stdout : Option StdoutSinkSpec

pub record BoundedBlockingBufferSpec : Type 0 where
  pub buffer_size : ℤ
  pub batch_size : ℤ

pub record BufferSpec : Type 0 where
  pub bounded_blocking : Option BoundedBlockingBufferSpec

pub record HeapCircuitBreakerSpec : Type 0 where
  pub usage : String

pub record CircuitBreakerSpec : Type 0 where
  pub heap : Option HeapCircuitBreakerSpec

-- `raw` is the text of an `apiextensionsv1.JSON`.
pub record DataPrepperConfigSpec : Type 0 where
  pub circuit_breakers : Option CircuitBreakerSpec
  pub raw : Option String
