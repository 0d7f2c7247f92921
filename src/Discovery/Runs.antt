-- ===== src/Discovery/Runs.antt =====
-- A run of the discovery's reconciler: Reconcile and updateDiscoveryStatus of
-- internal/controller/datapreppersourcediscovery_controller.go. The client's calls for the discovery
-- itself are parameters, as those for the pipelines are in Discovery/Rollout. Events, metrics and log
-- lines are left out.
pub mod Laws
pub mod Deletion
use dataprepper_operator.Base.{
  ℕ, String, Bool, true, false, not, if◌then◌else◌, ◌==◌, string_eq, Option, none, some, List, [],
  ◌∷◌, length,
}
use dataprepper_operator.Base.Dict.{Dict, lookup}
use dataprepper_operator.Base.Int.{ℤ, pos, to_int32}
use dataprepper_operator.Base.Result.{Result, ok, err}
use dataprepper_operator.Api.Pipeline.{DataPrepperPipelineSpec}
use dataprepper_operator.Api.Discovery.{
  KafkaDiscoverySpec, S3DiscoverySpec, DataPrepperSourceDiscoverySpec,
}
use dataprepper_operator.Discovery.Sources.{Strings, DiscoveredSource, S3Client}
use dataprepper_operator.Discovery.Reader.{KafkaConfig, S3Config, ReadError, read_kafka, read_s3}
use dataprepper_operator.Discovery.Policy.{
  discovery_failure_count_key, discovery_max_creations_per_cycle, discovery_poll_interval,
  discovery_cleanup_policy, parse_poll_interval, discovery_backoff, increment_failure_count,
  reset_failure_count,
}
use dataprepper_operator.Discovery.Template.{Renderer, render_pipeline_spec}
use dataprepper_operator.Discovery.Rollout.{
  Pipeline, Api, Orders, Owner, OwnerReference, ReconcileError, Outcome, ReconcileResult,
  build_desired, reconcile_pipelines, discovery_label_key,
}
use dataprepper_operator.Discovery.Cleanup.{CleanupError, cleanup_orphans, cleanup_on_deletion}
use dataprepper_operator.Discovery.Cycle.{
  DiscoveryPhase, DiscoveredSourceStatus, Condition, DiscoveryStatus, build_discovery_status,
  rollout_conditions, requeue_after,
}
use dataprepper_operator.Discovery.Objects.{
  Report, Discovery, CallError, Client, Libraries, RunError, Run, discovery_finalizer_name, done,
  stopped, absent, call_failed, fetch_failed, add_finalizer_failed, remove_finalizer_failed,
  status_failed, deletion_failed, cleanup_failed, rollout_failed,
}

module _ {Cluster : Type 0} (client : Client Cluster) (libraries : Libraries) where
  abbrev pub owner_of : Discovery → Owner
  owner_of d = record {
    name = d.name;
    set_controller_reference = libraries.set_controller_reference;
  }

  -- The functions that RetryOnConflict runs: `change` and an update, on a fresh read.
  abbrev pub write_read :
      (write : Discovery → Cluster → Option CallError × Cluster) (change : Discovery → Discovery)
      → Discovery
      → Result CallError Discovery
      → Cluster
      → Option CallError × Discovery × Cluster
  write_read write change d (err e) c = (some e, d, c)
  write_read write change d (ok q) c = let r = write (change q) c in (r.0, change q, r.1)

  unfoldable pub retry_write :
      (write : Discovery → Cluster → Option CallError × Cluster) (change : Discovery → Discovery)
      → Discovery
      → Cluster
      → Option CallError × Discovery × Cluster
  retry_write write change d c =
      client.retry_on_conflict (λ at. write_read write change at.0 (client.get d.name at.1) at.1)
        (d, c)

  abbrev pub count_children : Report → Result String (Dict Pipeline) → Report
  count_children report (err e) = report
  count_children report (ok items) = record report {
    active_pipelines = to_int32 (pos (length items));
  }

  -- updateDiscoveryStatus: the children are counted if they can be listed.
  unfoldable pub update_discovery_status :
      Discovery → Cluster → Option CallError × Discovery × Cluster
  unfolding retry_write
  update_discovery_status d c =
      let report = count_children d.report (client.pipelines.list discovery_label_key d.name c) in
      retry_write client.update_status (λ q. record q { report = report }) d c

  -- buildDiscoveryStatus writes into the status at hand.
  unfoldable pub put_report : DiscoveryPhase → List DiscoveredSource → Discovery → Discovery
  unfolding build_discovery_status
  put_report phase sources d =
      let s = build_discovery_status d.name phase sources in
      record d {
        report = record d.report {
          phase = s.phase;
          observed_generation = d.generation;
          discovered_sources = s.discovered_sources;
          sources = s.sources;
          conditions = libraries.set_status_condition s.ready d.report.conditions;
        };
      }

  abbrev pub count_failure : Discovery → Discovery
  count_failure q = record q {
    annotations = (increment_failure_count libraries.atoi libraries.itoa q.annotations).1;
  }

  -- A failed discovery: the count of failures and the status are written, with errors passed over.
  unfoldable pub on_failure : Discovery → Cluster → Run Cluster
  unfolding increment_failure_count retry_write put_report update_discovery_status discovery_backoff
  on_failure d c =
      let (count, annotations) =
        increment_failure_count libraries.atoi libraries.itoa d.annotations in
      let counted =
        retry_write client.update count_failure (record d { annotations = annotations }) c in
      let reported =
        update_discovery_status (put_report DiscoveryPhase.error [] counted.1) counted.2 in
      done (pos (discovery_backoff count)) reported.2

  abbrev pub is_counted : Option String → Bool
  is_counted none = false
  is_counted (some n) = not (n == "")

  abbrev pub reset_count : Discovery → Discovery
  reset_count q = record q { annotations = reset_failure_count q.annotations }

  -- The count is reset after a success, with errors passed over.
  unfoldable pub forget_failures : Discovery → Cluster → Discovery × Cluster
  unfolding retry_write reset_failure_count lookup
  forget_failures d c =
      if is_counted (lookup discovery_failure_count_key d.annotations)
      then (let r = retry_write client.update reset_count d c in (r.1, r.2))
      else (d, c)

  -- The status of a success, with the conditions of the rollout.
  unfoldable pub rolled_out : List DiscoveredSource → ReconcileResult → Discovery → Discovery
  unfolding put_report rollout_conditions
  rolled_out sources res d =
      let d = put_report DiscoveryPhase.running sources d in
      let (paused, in_progress) = rollout_conditions res in
      record d {
        report = record d.report {
          updating_pipelines = to_int32 (pos res.pending_updates);
          conditions =
              libraries.set_status_condition in_progress
                (libraries.set_status_condition paused d.report.conditions);
        };
      }

  abbrev pub after_status :
      List DiscoveredSource → ReconcileResult → Option CallError × Discovery × Cluster → Run Cluster
  after_status sources res (some e, d, c) = stopped (status_failed e) c
  after_status sources res (none, d, c) =
      done
        (requeue_after (discovery_max_creations_per_cycle d.spec) (length sources)
          (parse_poll_interval libraries.parse_duration (discovery_poll_interval d.spec)) res)
        c

  abbrev pub after_cleanup :
      Discovery
      → List DiscoveredSource
      → ReconcileResult
      → Option CleanupError × Cluster
      → Run Cluster
  after_cleanup d sources res (some e, c) = stopped (cleanup_failed e) c
  after_cleanup d sources res (none, c) =
      after_status sources res (update_discovery_status (rolled_out sources res d) c)

  abbrev pub after_rollout :
      Discovery
      → List DiscoveredSource
      → Option ReconcileError
      → ReconcileResult
      → Cluster
      → Run Cluster
  after_rollout d sources (some e) res c = stopped (rollout_failed e) c
  after_rollout d sources none res c =
      after_cleanup d sources res
        (cleanup_orphans client.pipelines d.name d.uid (discovery_cleanup_policy d.spec) sources c)

  -- Steps 3 and later.
  unfoldable pub on_success : Discovery → List DiscoveredSource → Cluster → Run Cluster
  unfolding forget_failures reconcile_pipelines build_desired render_pipeline_spec cleanup_orphans
      update_discovery_status rolled_out
  on_success d sources c =
      let (d, c) = forget_failures d c in
      let desired =
        build_desired (render_pipeline_spec libraries.instantiate libraries.glob d.spec)
          libraries.compute_spec_hash d.name [] sources in
      let r =
        reconcile_pipelines client.pipelines (owner_of d) libraries.orders
          (discovery_max_creations_per_cycle d.spec) desired c in
      after_rollout d sources r.error r.result r.cluster

  abbrev pub discovered :
      Discovery → Result ReadError (List DiscoveredSource) → Cluster → Run Cluster
  discovered d (err e) c = on_failure d c
  discovered d (ok sources) c = on_success d sources c

  -- Step 2: Kafka before S3, and without either nothing is done.
  abbrev pub discover_from :
      Discovery → Option KafkaDiscoverySpec → Option S3DiscoverySpec → Cluster → Run Cluster
  discover_from d (some kafka) s3 c =
      discovered d
        (read_kafka (client.get_secret c) libraries.text libraries.glob (client.kafka_factory c)
          kafka)
        c
  discover_from d none (some s3) c =
      discovered d
        (read_s3 (client.get_secret c) libraries.text libraries.glob (client.s3_factory c) s3) c
  discover_from d none none c = done (pos 0) c

  unfoldable pub discover : Discovery → Cluster → Run Cluster
  unfolding read_kafka read_s3 on_failure on_success
  discover d c = discover_from d d.spec.kafka d.spec.s3 c

  abbrev pub after_removal : Option CallError × Cluster → Run Cluster
  after_removal (some e, c) = stopped (remove_finalizer_failed e) c
  after_removal (none, c) = done (pos 0) c

  abbrev pub after_deletion : Discovery → Option CleanupError × Cluster → Run Cluster
  after_deletion d (some e, c) = stopped (deletion_failed e) c
  after_deletion d (none, c) = after_removal (
      client.update
        (record d { finalizers = libraries.remove_finalizer discovery_finalizer_name d.finalizers })
        c)

  -- The finalizer is removed once the cleanup went through.
  unfoldable pub finalize : Discovery → Cluster → Run Cluster
  unfolding cleanup_on_deletion
  finalize d c =
      if libraries.contains_finalizer discovery_finalizer_name d.finalizers
      then after_deletion d
          (cleanup_on_deletion client.pipelines d.name d.uid (discovery_cleanup_policy d.spec) c)
      else done (pos 0) c

  unfoldable pub ensure_finalizer : Discovery → Option CallError × Cluster → Run Cluster
  unfolding discover
  ensure_finalizer d (some e, c) = stopped (add_finalizer_failed e) c
  ensure_finalizer d (none, c) = discover d c

  abbrev pub with_finalizer : Discovery → Discovery
  with_finalizer d = record d {
    finalizers = libraries.add_finalizer discovery_finalizer_name d.finalizers;
  }

  abbrev pub run_found : Result CallError Discovery → Cluster → Run Cluster
  run_found (err absent) c = done (pos 0) c
  run_found (err (call_failed cause)) c = stopped (fetch_failed (call_failed cause)) c
  run_found (ok d) c =
      if d.deleting
      then finalize d c
      else if libraries.contains_finalizer discovery_finalizer_name d.finalizers
      then discover d c
      else ensure_finalizer (with_finalizer d) (client.update (with_finalizer d) c)

  unfoldable pub reconcile : (name : String) → Cluster → Run Cluster
  unfolding finalize ensure_finalizer discover
  reconcile name c = run_found (client.get name c) c
