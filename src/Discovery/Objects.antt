-- ===== src/Discovery/Objects.antt =====
-- The object of a discovery, the calls of the client for it, and the outcome of a run of
-- DataPrepperSourceDiscoveryReconciler
-- (internal/controller/datapreppersourcediscovery_controller.go).
use dataprepper_operator.Base.{String, Bool, string_eq, Option, none, some, List}
use dataprepper_operator.Base.Dict.{Dict}
use dataprepper_operator.Base.Int.{ℤ, pos}
use dataprepper_operator.Base.Result.{Result}
use dataprepper_operator.Api.Pipeline.{DataPrepperPipelineSpec}
use dataprepper_operator.Api.Discovery.{DataPrepperSourceDiscoverySpec}
use dataprepper_operator.Discovery.Sources.{Strings, S3Client}
use dataprepper_operator.Discovery.Reader.{KafkaConfig, S3Config}
use dataprepper_operator.Discovery.Template.{Renderer}
use dataprepper_operator.Discovery.Rollout.{Api, Orders, OwnerReference, ReconcileError}
use dataprepper_operator.Discovery.Cleanup.{CleanupError}
use dataprepper_operator.Discovery.Cycle.{DiscoveryPhase, DiscoveredSourceStatus, Condition}

-- The status of the object, without the time of the last poll and the count of orphans, which no
-- code sets.
pub record Report : Type 0 where
  pub phase : DiscoveryPhase
  pub observed_generation : ℤ
  pub discovered_sources : ℤ
  pub active_pipelines : ℤ
  pub updating_pipelines : ℤ
  pub conditions : List Condition
  pub sources : List DiscoveredSourceStatus

-- A DataPrepperSourceDiscovery; `deleting` is a set deletion timestamp.
pub record Discovery : Type 0 where
  pub name : String
  pub uid : String
  pub generation : ℤ
  pub deleting : Bool
  pub finalizers : List String
  pub annotations : Dict String
  pub spec : DataPrepperSourceDiscoverySpec
  pub report : Report

pub data CallError : Type 0 where
  absent : CallError
  call_failed : String → CallError

-- RetryOnConflict runs a function that reads into the object at hand: the object is part of what the
-- function is given and gives back.
pub record Client (Cluster : Type 0) : Type 0 where
  pub pipelines : Api Cluster
  pub get : String → Cluster → Result CallError Discovery
  pub update : Discovery → Cluster → Option CallError × Cluster
  pub update_status : Discovery → Cluster → Option CallError × Cluster
  pub get_secret : Cluster → String → Result String (Dict String)
  pub kafka_factory : Cluster → Option (KafkaConfig → Result String (Result String (Dict ℤ)))
  pub s3_factory : Cluster → Option (S3Config → Result String S3Client)
  pub retry_on_conflict :
      (Discovery × Cluster → Option CallError × Discovery × Cluster)
      → Discovery × Cluster
      → Option CallError × Discovery × Cluster

pub record Libraries : Type 0 where
  pub set_controller_reference : List OwnerReference → Result String (List OwnerReference)
  pub contains_finalizer : String → List String → Bool
  pub add_finalizer : String → List String → List String
  pub remove_finalizer : String → List String → List String
  pub set_status_condition : Condition → List Condition → List Condition
  pub text : Strings
  pub glob : String → String → Option Bool
  pub instantiate : Renderer
  pub compute_spec_hash : DataPrepperPipelineSpec → String
  pub parse_duration : String → Option ℤ
  pub atoi : String → ℤ
  pub itoa : ℤ → String
  pub orders : Orders

pub data RunError : Type 0 where
  fetch_failed add_finalizer_failed remove_finalizer_failed status_failed : CallError → RunError
  deletion_failed cleanup_failed : CleanupError → RunError
  rollout_failed : ReconcileError → RunError

pub record Run (Cluster : Type 0) : Type 0 where
  pub error : Option RunError
  pub requeue_after : ℤ
  pub cluster : Cluster

abbrev pub discovery_finalizer_name : String
discovery_finalizer_name = "dataprepper.kaasops.io/discovery-finalizer"

abbrev pub done : {Cluster : Type 0} → ℤ → Cluster → Run Cluster
done requeue c = record { error = none; requeue_after = requeue; cluster = c }

abbrev pub stopped : {Cluster : Type 0} → RunError → Cluster → Run Cluster
stopped e c = record { error = some e; requeue_after = pos 0; cluster = c }
