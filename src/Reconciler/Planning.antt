-- ===== src/Reconciler/Planning.antt =====
-- What a run of the pipeline reconciler works with and computes before it writes: steps 5 to 8 of
-- Reconcile in internal/controller/dataprepperpipeline_controller.go, and the list of its writes.
use dataprepper_operator.Base.{
  String, ◌<>◌, Bool, ◌&&◌, if◌then◌else◌, is_set, Option, List, [], ◌∷◌,
}
use dataprepper_operator.Base.Int.{ℤ, pos, ltb_ℤ}
use dataprepper_operator.Base.Result.{Result, ok, err, ◌>>=◌}
use dataprepper_operator.Api.Json.{Value, Fields}
use dataprepper_operator.Api.Defaults.{DataPrepperDefaultsSpec}
use dataprepper_operator.Api.Pipeline.{
  KafkaSourceSpec, DataPrepperPipelineSpec, PipelinePhase, KafkaStatus,
}
use dataprepper_operator.PeerForwarder.{needs_forwarding}
use dataprepper_operator.Generator.Helpers.{GenerateError, extract_processor_maps, needs_service}
use dataprepper_operator.Generator.PipelineConfig.{generate_pipeline_config}
use dataprepper_operator.Generator.DpConfig.{generate_dp_config}
use dataprepper_operator.Discovery.Rollout.{OwnerReference}
use dataprepper_operator.Discovery.Cycle.{Condition}
use dataprepper_operator.Workload.{Owner, generate_deployment, generate_service}
use dataprepper_operator.Reconciler.{Decision, calculate_scaling}
use dataprepper_operator.Reconciler.Hash.{hash_of_data, secret_hash}
use dataprepper_operator.Reconciler.Resources.{
  Api, ApiError, Wanted, config_map, deployment, service, headless_service, hpa, pdb,
}

pub record Status : Type 0 where
  pub phase : PipelinePhase
  pub replicas : ℤ
  pub ready_replicas : ℤ
  pub observed_generation : ℤ
  pub conditions : List Condition
  pub kafka : Option KafkaStatus

-- A DataPrepperPipeline, by what a run reads and writes; `deleting` is a set deletion timestamp.
pub record Pipeline : Type 0 where
  pub owner : Owner
  pub generation : ℤ
  pub deleting : Bool
  pub finalizers : List String
  pub spec : DataPrepperPipelineSpec
  pub status : Status

-- What the reconciler calls: the client, by the object it is asked for, and the libraries.
pub record Client (Cluster : Type 0) : Type 0 where
  pub objects : Api Cluster
  pub get_pipeline : String → Cluster → Result ApiError Pipeline
  pub update : Pipeline → Cluster → Option ApiError × Cluster
  pub update_status : Pipeline → Cluster → Option ApiError × Cluster
  pub get_defaults : Cluster → Option DataPrepperDefaultsSpec
  pub get_secret : Cluster → String → Option (List (String × String))
  -- The replicas and the ready replicas of a Deployment's status.
  pub deployment_status : String → Cluster → Option (ℤ × ℤ)
  -- The Kafka admin client, behind the secret and the factory.
  pub count_partitions : Cluster → Option (KafkaSourceSpec → Result String ℤ)
  pub retry_on_conflict :
      (Cluster → Option ApiError × Cluster) → Cluster → Option ApiError × Cluster

pub record Libraries : Type 0 where
  pub set_controller_reference : List OwnerReference → Result String (List OwnerReference)
  pub contains_finalizer : String → List String → Bool
  pub add_finalizer : String → List String → List String
  pub remove_finalizer : String → List String → List String
  pub set_status_condition : Condition → List Condition → List Condition
  pub unmarshal : String → Option Value
  pub to_yaml : Fields → Result String String
  pub digest : String → String
  pub decimal : ℤ → String
  pub int32_of_inf : ℤ

pub data ReconcileError : Type 0 where
  fetch_failed add_finalizer_failed remove_finalizer_failed status_failed :
      ApiError → ReconcileError
  extract_failed pipeline_config_failed dp_config_failed : GenerateError → ReconcileError
  marshal_failed : (what cause : String) → ReconcileError
  write_failed : (what cause : String) → ReconcileError

-- What steps 5 to 8 compute before the first write.
pub record Plan : Type 0 where
  pub scaling : Decision
  pub replicas : ℤ
  pub needs_peer_forwarder : Bool
  pub pipelines_yaml : String
  pub dp_config_yaml : String
  pub config_hash : String

-- A failed calculation falls back to one replica.
abbrev pub replicas_of : Decision → ℤ
replicas_of d = if is_set d.error then pos 1 else d.replicas

abbrev pub topic_workers_of : Decision → ℤ
topic_workers_of d = if is_set d.error then pos 0 else d.topic_workers

abbrev pub map_err : {E F A : Type 0} → (E → F) → Result E A → Result F A
map_err f (err e) = err (f e)
map_err f (ok a) = ok a

-- The writes in their order, with the word of their error.
unfoldable pub wanted :
    (decimal : ℤ → String) → Owner → DataPrepperPipelineSpec → Plan → List (String × Wanted)
unfolding needs_service generate_deployment generate_service
wanted decimal owner spec plan =
    (
      "pipelines configmap",
      config_map owner (owner.name <> "-pipelines") (("pipelines.yaml", plan.pipelines_yaml) ∷ []),
    )
    ∷ (
      "dp-config configmap",
      config_map owner (owner.name <> "-config")
          (("data-prepper-config.yaml", plan.dp_config_yaml) ∷ []),
    )
    ∷ (
      "deployment",
      deployment (
          generate_deployment decimal owner spec plan.replicas plan.needs_peer_forwarder
            plan.config_hash),
    )
    ∷ (
      "service",
      service owner (needs_service spec.pipelines spec.service_monitor)
          (generate_service decimal owner spec),
    )
    ∷ ("headless service", headless_service owner plan.needs_peer_forwarder)
    ∷ ("hpa", hpa owner spec plan.scaling.use_hpa)
    ∷ ("pdb", pdb owner plan.replicas)
    ∷ []

module _ {Cluster : Type 0} (client : Client Cluster) (libraries : Libraries) where
  -- The hash covers the two files and the secrets.
  abbrev pub plan_of :
      DataPrepperPipelineSpec → Cluster → Decision → Bool → (pipelines_yaml dp_yaml : String) → Plan
  plan_of spec c d peer pipelines_yaml dp_yaml = record {
    scaling = d;
    replicas = replicas_of d;
    needs_peer_forwarder = peer;
    pipelines_yaml = pipelines_yaml;
    dp_config_yaml = dp_yaml;
    config_hash =
        hash_of_data libraries.digest (("pipelines.yaml", pipelines_yaml) ∷ [])
        <> hash_of_data libraries.digest (("data-prepper-config.yaml", dp_yaml) ∷ [])
        <> secret_hash libraries.digest (client.get_secret c) spec;
  }

  unfoldable pub make_plan : Owner → DataPrepperPipelineSpec → Cluster → Result ReconcileError Plan
  unfolding extract_processor_maps calculate_scaling needs_forwarding generate_pipeline_config
      generate_dp_config hash_of_data secret_hash
  make_plan owner spec c =
      let unmarshal = libraries.unmarshal in
      map_err extract_failed (extract_processor_maps unmarshal spec.pipelines) >>= λ maps.
      let d = calculate_scaling libraries.int32_of_inf (client.count_partitions c) spec in
      let replicas = replicas_of d in
      let peer = needs_forwarding maps && ltb_ℤ (pos 1) replicas in
      map_err pipeline_config_failed
        (generate_pipeline_config unmarshal spec.pipelines (topic_workers_of d))
      >>= λ pipelines.
          map_err (marshal_failed "pipeline config") (libraries.to_yaml pipelines)
          >>= λ pipelines_yaml.
              map_err dp_config_failed
                (generate_dp_config unmarshal spec peer owner.name owner.namespace)
              >>= λ dp. map_err (marshal_failed "dp config") (libraries.to_yaml dp) >>= λ dp_yaml.
                  ok (plan_of spec c d peer pipelines_yaml dp_yaml)
