-- ===== src/Reconciler/Cycle/Runs.antt =====
-- Whole runs.
use dataprepper_operator.Base.{
  ◌≡◌, refl, sym, ◌∙◌, subst, ap, String, Bool, true, false, Option, none, some, List, [], ◌∷◌, All,
  if_ind, if◌then◌else◌,
}
use dataprepper_operator.Base.Result.{Result, ok, err}
use dataprepper_operator.Base.Int.{ℤ}
use dataprepper_operator.Api.Pipeline.{DataPrepperPipelineSpec, PipelinePhase}
use dataprepper_operator.Defaults.{merge_spec}
use dataprepper_operator.Workload.{Owner}
use dataprepper_operator.Reconciler.{update_status}
use dataprepper_operator.Reconciler.Resources.{Key, Wanted, key_eq, service_monitor, ApiError}
use dataprepper_operator.Reconciler.Resources.Server.{IsServer, IsController}
use dataprepper_operator.Reconciler.Resources.Settled.{IsSettled, reconcile_or_delete-only}
use dataprepper_operator.Reconciler.Planning.{
  Client, Libraries, Plan, Pipeline, Status, ReconcileError, wanted,
}
use dataprepper_operator.Reconciler.Cycle.{
  apply, finish, finish_with, apply_monitor, put_status, write_status, new_status, after_writes,
  deploy, with_plan, reconcile_spec, ensure_finalizer, pipeline_finalizer_name, finalize,
  with_finalizer, reconcile_found, reconcile,
}
use dataprepper_operator.Generator.Helpers.{is_enabled}
use dataprepper_operator.Reconciler.Cycle.Writes.{
  Elsewhere, AllSettled, apply-only, apply-IsSettled,
}
use dataprepper_operator.Reconciler.Cycle.Laws.{
  wanted-Apart, wanted-Elsewhere, monitor_key, wanted-IsStable,
}

-- What a run relies on of the client beside its objects.
pub record IsClient {Cluster : Type 0} (client : Client Cluster) : Type 0 where
  pub server : IsServer client.objects
  -- The updates of a pipeline change no other object.
  pub update_only :
      (p : Pipeline) (k : Key) (c : Cluster)
      → client.objects.get k (client.update p c).1 ≡ client.objects.get k c
  pub status_only :
      (p : Pipeline) (k : Key) (c : Cluster)
      → client.objects.get k (client.update_status p c).1 ≡ client.objects.get k c
  -- A read answers with the object of the name, and a written status is read again.
  pub named :
      (name : String) (p : Pipeline) (c : Cluster)
      → client.get_pipeline name c ≡ ok p
      → p.owner.name ≡ name
  pub status_stored :
      (p : Pipeline) (c : Cluster)
      → (client.update_status p c).0 ≡ none
      → (q : Pipeline) × (client.get_pipeline p.owner.name (client.update_status p c).1 ≡ ok q)
        × (q.status ≡ p.status)
  -- RetryOnConflict calls the function some times, and answers with its last answer.
  pub retry_only :
      (f : Cluster → Option ApiError × Cluster) (k : Key) (c : Cluster)
      → ((now : Cluster) → client.objects.get k (f now).1 ≡ client.objects.get k now)
      → client.objects.get k (client.retry_on_conflict f c).1 ≡ client.objects.get k c
  pub retry_last :
      (f : Cluster → Option ApiError × Cluster) (c : Cluster)
      → (now : Cluster) × (client.retry_on_conflict f c ≡ f now)

module _ {Cluster : Type 0} (client : Client Cluster) (libraries : Libraries)
    (is_client : IsClient client) where
  put_status-only :
      (status : Status) (r : Result ApiError Pipeline) (k : Key) (c : Cluster)
      → client.objects.get k (put_status client libraries status r c).1 ≡ client.objects.get k c
  put_status-only status (err e) k c = refl
  put_status-only status (ok p) k c = is_client.status_only (record p { status = status }) k c

  write_status-only :
      (name : String) (status : Status) (k : Key) (c : Cluster)
      → client.objects.get k (write_status client libraries name status c).1
        ≡ client.objects.get k c
  unfolding write_status
  write_status-only name status k c =
      is_client.retry_only
        (λ now. put_status client libraries status (client.get_pipeline name now) now) k c
        (λ now. put_status-only status (client.get_pipeline name now) k now)

  finish_with-cluster :
      (q : ℤ) (r : Option ApiError × Cluster) → (finish_with client libraries q r).cluster ≡ r.1
  finish_with-cluster q (some e, c) = refl
  finish_with-cluster q (none, c) = refl

  -- The last step writes no object.
  pub finish-only :
      (p : Pipeline) (phase : PipelinePhase) (status : Status) (k : Key) (c : Cluster)
      → client.objects.get k (finish client libraries p phase status c).cluster
        ≡ client.objects.get k c
  unfolding finish
  finish-only p phase status k c =
      let u =
        update_status phase (client.deployment_status p.owner.name c)
          (status.replicas, status.ready_replicas) in
      let desired = new_status client libraries p status u in
      ap (client.objects.get k)
        (finish_with-cluster u.requeue_after (write_status client libraries p.owner.name desired c))
      ∙ write_status-only p.owner.name desired k c

  pub apply_monitor-only :
      (available : Bool) (owner : Owner) (spec : DataPrepperPipelineSpec) (k : Key) (c : Cluster)
      → key_eq (monitor_key owner) k ≡ false
      → client.objects.get k (apply_monitor client libraries available owner spec c)
        ≡ client.objects.get k c
  unfolding apply_monitor
  apply_monitor-only true owner spec k c h =
      reconcile_or_delete-only libraries.set_controller_reference client.objects is_client.server
        (service_monitor owner spec (is_enabled spec.service_monitor)) k c h
  apply_monitor-only false owner spec k c h = refl

  after_writes-only :
      (available : Bool) (p : Pipeline) (spec : DataPrepperPipelineSpec) (plan : Plan)
      (r : Option ReconcileError × Cluster) (k : Key)
      → key_eq (monitor_key p.owner) k ≡ false
      → client.objects.get k (after_writes client libraries available p spec plan r).cluster
        ≡ client.objects.get k r.1
  after_writes-only available p spec plan (some e, c) k h = refl
  after_writes-only available p spec plan (none, c) k h =
      finish-only p PipelinePhase.unset _ k
        (apply_monitor client libraries available p.owner spec c)
      ∙ apply_monitor-only available p.owner spec k c h

  after_writes-none :
      (available : Bool) (p : Pipeline) (spec : DataPrepperPipelineSpec) (plan : Plan)
      (r : Option ReconcileError × Cluster)
      → (after_writes client libraries available p spec plan r).error ≡ none
      → r.0 ≡ none
  after_writes-none available p spec plan (some e, c) h = cc
  after_writes-none available p spec plan (none, c) h = refl

  settled_after :
      (owner : Owner) (ws : List (String × Wanted)) (before after : Cluster)
      → All (λ w. key_eq (monitor_key owner) w.1.key ≡ false) ws
      → ((k : Key)
          → key_eq (monitor_key owner) k ≡ false
          → client.objects.get k after ≡ client.objects.get k before)
      → AllSettled client libraries is_client.server ws before
      → AllSettled client libraries is_client.server ws after
  settled_after owner [] before after other same h = tt
  settled_after owner (w ∷ ws) before after other same h = (
    subst (IsSettled libraries.set_controller_reference w.1) (sym (same w.1.key other.0)) h.0,
    settled_after owner ws before after other.1 same h.1,
  )

  -- What a run leaves of the objects.
  abbrev pub IsDeployed : Owner → DataPrepperPipelineSpec → Plan → (before after : Cluster) → Type 0
  IsDeployed owner spec plan before after =
      AllSettled client libraries is_client.server (wanted libraries.decimal owner spec plan) after
      × ((k : Key)
          → Elsewhere (wanted libraries.decimal owner spec plan) k
          → key_eq (monitor_key owner) k ≡ false
          → client.objects.get k after ≡ client.objects.get k before)

  pub deploy-IsDeployed :
      (available : Bool) (p : Pipeline) (spec : DataPrepperPipelineSpec) (plan : Plan) (c : Cluster)
      → IsController libraries.set_controller_reference
      → (deploy client libraries available p spec plan c).error ≡ none
      → IsDeployed p.owner spec plan c (deploy client libraries available p spec plan c).cluster
  unfolding deploy
  deploy-IsDeployed available p spec plan c controller h =
      let ws = wanted libraries.decimal p.owner spec plan in
      let r = apply client libraries ws c in
      let done = after_writes-none available p spec plan r h in
      let settled =
        apply-IsSettled client libraries is_client.server ws c controller
          (wanted-IsStable libraries.decimal p.owner spec plan)
          (wanted-Apart libraries.decimal p.owner spec plan) done in
      (
        settled_after p.owner ws r.1 (after_writes client libraries available p spec plan r).cluster
            (wanted-Elsewhere libraries.decimal p.owner spec plan)
            (after_writes-only available p spec plan r) settled,
        λ k elsewhere other.
            after_writes-only available p spec plan r k other
            ∙ apply-only client libraries is_client.server ws k c elsewhere,
      )

  pub with_plan-IsDeployed :
      (available : Bool) (p : Pipeline) (spec : DataPrepperPipelineSpec)
      (r : Result ReconcileError Plan) (c : Cluster)
      → IsController libraries.set_controller_reference
      → (with_plan client libraries available p spec r c).error ≡ none
      → (plan : Plan) × (r ≡ ok plan)
        × IsDeployed p.owner spec plan c (with_plan client libraries available p spec r c).cluster
  with_plan-IsDeployed available p spec (err e) c controller h = cc
  with_plan-IsDeployed available p spec (ok plan) c controller h =
      (plan, refl, deploy-IsDeployed available p spec plan c controller h)

  pub ensure_finalizer-only :
      (p : Pipeline) (k : Key) (c : Cluster)
      → client.objects.get k (ensure_finalizer client libraries p c).1 ≡ client.objects.get k c
  unfolding ensure_finalizer
  ensure_finalizer-only p k c =
      if_ind (λ (r : Option ApiError × Cluster). client.objects.get k r.1 ≡ client.objects.get k c)
        (libraries.contains_finalizer pipeline_finalizer_name p.finalizers) _ _ (λ h. refl)
        (λ h.
          is_client.update_only
            (record p { finalizers = libraries.add_finalizer pipeline_finalizer_name p.finalizers })
            k c)

  -- The specification that a run works with.
  abbrev pub merged : Pipeline → Cluster → DataPrepperPipelineSpec
  merged p c = merge_spec (client.get_defaults (ensure_finalizer client libraries p c).1) p.spec

  pub with_finalizer-none :
      (available : Bool) (p : Pipeline) (r : Option ApiError × Cluster)
      → (with_finalizer client libraries available p r).error ≡ none
      → with_finalizer client libraries available p r
        ≡ reconcile_spec client libraries available p
            (merge_spec (client.get_defaults r.1) p.spec)
            r.1
  with_finalizer-none available p (some e, c) h = cc
  with_finalizer-none available p (none, c) h = refl

  pub reconcile-merged :
      (available : Bool) (name : String) (p : Pipeline) (c : Cluster)
      → client.get_pipeline name c ≡ ok p
      → p.deleting ≡ false
      → reconcile client libraries available name c
        ≡ with_finalizer client libraries available p (ensure_finalizer client libraries p c)
  unfolding reconcile
  reconcile-merged available name p c found h =
      ap (λ r. reconcile_found client libraries available r c) found
      ∙ ap
          (λ b.
            if b
            then finalize client libraries p c
            else with_finalizer client libraries available p
                (ensure_finalizer client libraries p c))
          h
