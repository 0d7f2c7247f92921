-- ===== src/Reconciler/Cycle.antt =====
-- A run of the pipeline reconciler: Reconcile of
-- internal/controller/dataprepperpipeline_controller.go, with the part of updateStatus that writes.
-- Events, metrics and log lines are left out, and so are the messages of the conditions.
pub mod Writes
pub mod Laws
pub mod Runs
pub mod Outcomes
pub mod Reports
pub mod Plans
pub mod Accepted
pub mod Replicas
use dataprepper_operator.Base.{
  String, ◌<>◌, Bool, true, false, not, ◌&&◌, ◌||◌, if◌then◌else◌, is_set, Option, none, some, List,
  [], ◌∷◌,
}
use dataprepper_operator.Base.Int.{ℤ, pos, ltb_ℤ}
use dataprepper_operator.Base.Result.{Result, ok, err, ◌>>=◌}
use dataprepper_operator.Api.Json.{Value, Fields}
use dataprepper_operator.Api.Common.{ServiceMonitorSpec}
use dataprepper_operator.Api.Defaults.{DataPrepperDefaultsSpec}
use dataprepper_operator.Api.Pipeline.{
  KafkaSourceSpec, DataPrepperPipelineSpec, PipelinePhase, KafkaStatus,
}
use dataprepper_operator.Api.Webhook.{graph_defs}
use dataprepper_operator.Validation.{GraphError, validate_graph}
use dataprepper_operator.Defaults.{merge_spec}
use dataprepper_operator.PeerForwarder.{needs_forwarding}
use dataprepper_operator.Generator.Helpers.{
  GenerateError, extract_processor_maps, needs_service, is_enabled,
}
use dataprepper_operator.Generator.PipelineConfig.{generate_pipeline_config}
use dataprepper_operator.Generator.DpConfig.{generate_dp_config}
use dataprepper_operator.Discovery.Rollout.{OwnerReference}
use dataprepper_operator.Discovery.Cycle.{Condition}
use dataprepper_operator.Workload.{Owner, generate_deployment, generate_service}
use dataprepper_operator.Reconciler.{Decision, StatusUpdate, calculate_scaling, update_status}
use dataprepper_operator.Reconciler.Hash.{hash_of_data, secret_hash}
use dataprepper_operator.Reconciler.Resources.{
  Api, ApiError, not_found, api_failed, Wanted, reconcile_or_delete, config_map, deployment,
  service, headless_service, hpa, pdb, service_monitor,
}
use dataprepper_operator.Reconciler.Planning.{
  Client, Libraries, Pipeline, Plan, ReconcileError, Status, add_finalizer_failed, dp_config_failed,
  extract_failed, fetch_failed, make_plan, map_err, marshal_failed, pipeline_config_failed, plan_of,
  remove_finalizer_failed, replicas_of, status_failed, topic_workers_of, wanted, write_failed,
}

-- What a run returns, and the cluster after it.
pub record Run (Cluster : Type 0) : Type 0 where
  pub error : Option ReconcileError
  pub requeue_after : ℤ
  pub cluster : Cluster

abbrev pub pipeline_finalizer_name : String
pipeline_finalizer_name = "dataprepper.kaasops.io/pipeline-finalizer"

abbrev pub done : {Cluster : Type 0} → Cluster → Run Cluster
done c = record { error = none; requeue_after = pos 0; cluster = c }

abbrev pub failed : {Cluster : Type 0} → ReconcileError → Cluster → Run Cluster
failed e c = record { error = some e; requeue_after = pos 0; cluster = c }

module _ {Cluster : Type 0} (client : Client Cluster) (libraries : Libraries) where
  -- The first failed write ends the run.
  unfoldable pub apply : List (String × Wanted) → Cluster → Option ReconcileError × Cluster
  unfolding reconcile_or_delete
  apply [] c = (none, c)
  apply ((what, w) ∷ ws) c =
      let (failure, next) =
        reconcile_or_delete libraries.set_controller_reference client.objects w c in
      elim failure [ none ↦ apply ws next | some cause ↦ (some (write_failed what cause), next) ]

  -- The monitor is written only where its kind is known, and its error is not returned.
  unfoldable pub apply_monitor :
      (available : Bool) → Owner → DataPrepperPipelineSpec → Cluster → Cluster
  unfolding reconcile_or_delete
  apply_monitor available owner spec c =
      if available
      then (reconcile_or_delete libraries.set_controller_reference client.objects
          (service_monitor owner spec (is_enabled spec.service_monitor)) c).1
      else c

  abbrev pub condition :
      (type : String) (status : Bool) (reason : String) → List Condition → List Condition
  condition type status reason =
      libraries.set_status_condition (record { type = type; status = status; reason = reason })

  -- The conditions that Reconcile sets on the way to its last step.
  unfoldable pub plan_conditions : Plan → List Condition → List Condition
  plan_conditions plan cs =
      let cs = condition "ConfigValid" true "Valid" cs in
      let cs =
        if is_set plan.scaling.error
        then condition "ScalingReady" false "ScalingFailed" cs
        else condition "ScalingReady" true "Calculated" cs in
      if plan.needs_peer_forwarder
      then condition "PeerForwarderConfigured" true "Configured" cs
      else condition "PeerForwarderConfigured" false "NotNeeded" cs

  abbrev pub or_kept : Option KafkaStatus → Option KafkaStatus → Option KafkaStatus
  or_kept none old = old
  or_kept (some k) old = some k

  -- The function that RetryOnConflict runs: the status is put on a fresh read.
  abbrev pub put_status : Status → Result ApiError Pipeline → Cluster → Option ApiError × Cluster
  put_status status (err e) c = (some e, c)
  put_status status (ok p) c = client.update_status (record p { status = status }) c

  unfoldable pub write_status : (name : String) → Status → Cluster → Option ApiError × Cluster
  write_status name status c =
      client.retry_on_conflict (λ now. put_status status (client.get_pipeline name now) now) c

  abbrev pub finish_with : (requeue_after : ℤ) → Option ApiError × Cluster → Run Cluster
  finish_with requeue_after (some e, c) = failed (status_failed e) c
  finish_with requeue_after (none, c) = record {
    error = none;
    requeue_after = requeue_after;
    cluster = c;
  }

  abbrev pub new_status : Pipeline → Status → StatusUpdate → Status
  new_status p status u = record {
    phase = u.phase;
    replicas = u.replicas;
    ready_replicas = u.ready_replicas;
    observed_generation = p.generation;
    conditions = condition "Ready" u.ready u.reason status.conditions;
    kafka = status.kafka;
  }

  -- updateStatus: `status` holds what was set so far.
  unfoldable pub finish : Pipeline → (error_phase : PipelinePhase) → Status → Cluster → Run Cluster
  unfolding update_status write_status
  finish p error_phase status c =
      let u =
        update_status error_phase (client.deployment_status p.owner.name c)
          (status.replicas, status.ready_replicas) in
      finish_with u.requeue_after (write_status p.owner.name (new_status p status u) c)

  abbrev pub after_writes :
      (available : Bool)
      → Pipeline
      → DataPrepperPipelineSpec
      → Plan
      → Option ReconcileError × Cluster
      → Run Cluster
  after_writes available p spec plan (some e, c) = failed e c
  after_writes available p spec plan (none, c) =
      finish p PipelinePhase.unset
        (record p.status {
          conditions = plan_conditions plan p.status.conditions;
          kafka = or_kept plan.scaling.kafka p.status.kafka;
        })
        (apply_monitor available p.owner spec c)

  -- The writes and the status, once everything is computed.
  unfoldable pub deploy :
      (available : Bool) → Pipeline → DataPrepperPipelineSpec → Plan → Cluster → Run Cluster
  unfolding wanted apply apply_monitor plan_conditions finish
  deploy available p spec plan c =
      after_writes available p spec plan (apply (wanted libraries.decimal p.owner spec plan) c)

  abbrev pub with_plan :
      (available : Bool)
      → Pipeline
      → DataPrepperPipelineSpec
      → Result ReconcileError Plan
      → Cluster
      → Run Cluster
  with_plan available p spec (err e) c = failed e c
  with_plan available p spec (ok plan) c = deploy available p spec plan c

  abbrev pub invalid_status : Pipeline → Status
  invalid_status p = record p.status {
    conditions = condition "ConfigValid" false "ValidationFailed" p.status.conditions;
  }

  abbrev pub with_graph :
      (available : Bool)
      → Pipeline
      → DataPrepperPipelineSpec
      → Option GraphError
      → Cluster
      → Run Cluster
  with_graph available p spec (some e) c = finish p PipelinePhase.error (invalid_status p) c
  with_graph available p spec none c =
      with_plan available p spec (make_plan client libraries p.owner spec c) c

  -- Steps 4 and later, for the merged specification.
  unfoldable pub reconcile_spec :
      (available : Bool) → Pipeline → DataPrepperPipelineSpec → Cluster → Run Cluster
  unfolding validate_graph graph_defs finish make_plan deploy
  reconcile_spec available p spec c =
      with_graph available p spec (validate_graph (graph_defs spec.pipelines)) c

  abbrev pub finalize_with : Option ApiError × Cluster → Run Cluster
  finalize_with (some e, c) = failed (remove_finalizer_failed e) c
  finalize_with (none, c) = done c

  -- A pipeline that is being deleted loses the finalizer, and nothing else is done.
  unfoldable pub finalize : Pipeline → Cluster → Run Cluster
  finalize p c =
      if libraries.contains_finalizer pipeline_finalizer_name p.finalizers
      then finalize_with (
          client.update
            (record p {
              finalizers = libraries.remove_finalizer pipeline_finalizer_name p.finalizers;
            })
            c)
      else done c

  -- The finalizer is put on before anything else.
  unfoldable pub ensure_finalizer : Pipeline → Cluster → Option ApiError × Cluster
  ensure_finalizer p c =
      if libraries.contains_finalizer pipeline_finalizer_name p.finalizers
      then (none, c)
      else client.update
          (record p { finalizers = libraries.add_finalizer pipeline_finalizer_name p.finalizers }) c

  abbrev pub with_finalizer :
      (available : Bool) → Pipeline → Option ApiError × Cluster → Run Cluster
  with_finalizer available p (some e, c) = failed (add_finalizer_failed e) c
  with_finalizer available p (none, c) =
      reconcile_spec available p (merge_spec (client.get_defaults c) p.spec) c

  abbrev pub reconcile_found : (available : Bool) → Result ApiError Pipeline → Cluster → Run Cluster
  reconcile_found available (err not_found) c = done c
  reconcile_found available (err (api_failed cause)) c = failed (fetch_failed (api_failed cause)) c
  reconcile_found available (ok p) c =
      if p.deleting then finalize p c else with_finalizer available p (ensure_finalizer p c)

  unfoldable pub reconcile : (available : Bool) (name : String) → Cluster → Run Cluster
  unfolding finalize ensure_finalizer reconcile_spec merge_spec
  reconcile available name c = reconcile_found available (client.get_pipeline name c) c
