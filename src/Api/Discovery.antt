-- ===== src/Api/Discovery.antt =====
-- api/v1alpha1/datapreppersourcediscovery_types.go
use dataprepper_operator.Base.{String, Bool, List, Option}
use dataprepper_operator.Base.Dict.{Dict}
use dataprepper_operator.Base.Int.{ℤ}
use dataprepper_operator.Api.Common.{SecretReference}
use dataprepper_operator.Api.Pipeline.{DataPrepperPipelineSpec}

pub record KafkaTopicSelectorSpec : Type 0 where
  pub prefix : String
  pub exclude_patterns : List String

pub record KafkaDiscoverySpec : Type 0 where
  pub bootstrap_servers : List String
  pub credentials_secret_ref : Option SecretReference
  pub encryption_type : String
  pub topic_selector : KafkaTopicSelectorSpec
  pub poll_interval : String
  pub cleanup_policy : String

pub record PipelineTemplateSpec : Type 0 where
  pub spec : DataPrepperPipelineSpec

pub record DiscoveryOverrideSpec : Type 0 where
  pub pattern : String
  pub spec : DataPrepperPipelineSpec

pub record S3PrefixSelectorSpec : Type 0 where
  pub prefix : String
  pub depth : ℤ
  pub exclude_patterns : List String

pub record SqsQueueMappingSpec : Type 0 where
  pub queue_url_template : String
  pub overrides : Dict String

pub record S3DiscoverySpec : Type 0 where
  pub region : String
  pub bucket : String
  pub prefix_selector : S3PrefixSelectorSpec
  pub endpoint : String
  pub force_path_style : Bool
  pub credentials_secret_ref : Option SecretReference
  pub sqs_queue_mapping : Option SqsQueueMappingSpec
  pub poll_interval : String
  pub cleanup_policy : String

pub record DataPrepperSourceDiscoverySpec : Type 0 where
  pub kafka : Option KafkaDiscoverySpec
  pub s3 : Option S3DiscoverySpec
  pub pipeline_template : PipelineTemplateSpec
  pub overrides : List DiscoveryOverrideSpec
  pub max_creations_per_cycle : Option ℤ
