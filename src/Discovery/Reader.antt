-- ===== src/Discovery/Reader.antt =====
-- How the sources of a discovery are read: discoverKafka and discoverS3 of
-- internal/controller/datapreppersourcediscovery_controller.go, kafkaConfigFromSecret and
-- s3ConfigFromSecret of internal/controller/helpers.go. The secrets and the two client factories are
-- parameters; a Kafka client is its answer to ListTopics.
use dataprepper_operator.Base.{String, Bool, Option, none, some, List}
use dataprepper_operator.Base.Dict.{Dict, lookup}
use dataprepper_operator.Base.Int.{ℤ}
use dataprepper_operator.Base.Result.{Result, ok, err, ◌>>=◌}
use dataprepper_operator.Api.Common.{SecretReference}
use dataprepper_operator.Api.Discovery.{KafkaDiscoverySpec, S3DiscoverySpec, SqsQueueMappingSpec}
use dataprepper_operator.Discovery.Sources.{
  Strings, DiscoveredSource, DiscoveryError, S3Client, SqsQueueMapping, discover_kafka, discover_s3,
}

pub record KafkaConfig : Type 0 where
  pub bootstrap_servers : List String
  pub username : String
  pub password : String

pub record S3Config : Type 0 where
  pub region : String
  pub endpoint : String
  pub force_path_style : Bool
  pub access_key_id : String
  pub secret_access_key : String

pub data ReadError : Type 0 where
  no_factory : ReadError
  secret_failed client_failed : String → ReadError
  discovery_failed : DiscoveryError → ReadError

-- `string(data[key])`
abbrev text_of : Option String → String
text_of none = ""
text_of (some s) = s

abbrev read_error : {E A : Type 0} → (E → ReadError) → Result E A → Result ReadError A
read_error f (err e) = err (f e)
read_error f (ok a) = ok a

module _ (get_secret : String → Result String (Dict String)) where
  unfoldable pub kafka_config_from_secret :
      (bootstrap_servers : List String) → Option SecretReference → Result ReadError KafkaConfig
  unfolding lookup
  kafka_config_from_secret servers none =
      ok (record { bootstrap_servers = servers; username = ""; password = "" })
  kafka_config_from_secret servers (some ref) =
      read_error secret_failed (get_secret ref.name) >>= λ entries. ok (record {
        bootstrap_servers = servers;
        username = text_of (lookup "username" entries);
        password = text_of (lookup "password" entries);
      })

  abbrev login : S3DiscoverySpec → (access_key_id secret_access_key : String) → S3Config
  login spec id key = record {
    region = spec.region;
    endpoint = spec.endpoint;
    force_path_style = spec.force_path_style;
    access_key_id = id;
    secret_access_key = key;
  }

  unfoldable pub s3_config_from_secret : S3DiscoverySpec → Result ReadError S3Config
  unfolding lookup
  s3_config_from_secret spec = elim spec.credentials_secret_ref [
    | none ↦ ok (login spec "" "")
    | some ref ↦ read_error secret_failed (get_secret ref.name) >>= λ entries. ok (
        login spec (text_of (lookup "aws_access_key_id" entries))
          (text_of (lookup "aws_secret_access_key" entries)))
  ]

  module _ (text : Strings) (glob : String → String → Option Bool) where
    unfoldable pub read_kafka :
        Option (KafkaConfig → Result String (Result String (Dict ℤ)))
        → KafkaDiscoverySpec
        → Result ReadError (List DiscoveredSource)
    unfolding kafka_config_from_secret discover_kafka
    read_kafka none spec = err no_factory
    read_kafka (some factory) spec =
        kafka_config_from_secret spec.bootstrap_servers spec.credentials_secret_ref >>= λ config.
        read_error client_failed (factory config) >>= λ topics. read_error discovery_failed (
          discover_kafka text glob (record {
            client = some topics;
            prefix = spec.topic_selector.prefix;
            exclude_patterns = spec.topic_selector.exclude_patterns;
          }))

    abbrev sqs_mapping_of : Option SqsQueueMappingSpec → Option SqsQueueMapping
    sqs_mapping_of none = none
    sqs_mapping_of (some m) =
        some (record { queue_url_template = m.queue_url_template; overrides = m.overrides })

    unfoldable pub read_s3 :
        Option (S3Config → Result String S3Client)
        → S3DiscoverySpec
        → Result ReadError (List DiscoveredSource)
    unfolding s3_config_from_secret discover_s3
    read_s3 none spec = err no_factory
    read_s3 (some factory) spec = s3_config_from_secret spec >>= λ config.
        read_error client_failed (factory config) >>= λ client. read_error discovery_failed (
          discover_s3 text glob (record {
            client = some client;
            bucket = spec.bucket;
            region = spec.region;
            prefix = spec.prefix_selector.prefix;
            depth = spec.prefix_selector.depth;
            exclude_patterns = spec.prefix_selector.exclude_patterns;
            sqs_mapping = sqs_mapping_of spec.sqs_queue_mapping;
          }))
