-- ===== src/Api/Defaults.antt =====
-- api/v1alpha1/dataprepperdefaults_types.go
use dataprepper_operator.Base.{String, List, Option}
use dataprepper_operator.Api.Common.{
  SecretReference, PerReplicaResources, ServiceMonitorSpec, OpenSearchSinkSpec,
  DataPrepperConfigSpec,
}

pub record DefaultKafkaSpec : Type 0 where
  pub bootstrap_servers : List String
  pub credentials_secret_ref : Option SecretReference

pub record DefaultSinkSpec : Type 0 where
  pub open_search : Option OpenSearchSinkSpec

pub record DataPrepperDefaultsSpec : Type 0 where
  pub image : String
  pub sink : Option DefaultSinkSpec
  pub kafka : Option DefaultKafkaSpec
  pub resources : Option PerReplicaResources
  pub data_prepper_config : Option DataPrepperConfigSpec
  pub service_monitor : Option ServiceMonitorSpec
