-- ===== src/Reconciler/Cycle/Reports.antt =====
-- What a run reports in the status of the pipeline.
use dataprepper_operator.Base.{
  ◌≡◌, refl, sym, ◌∙◌, subst, ap, String, Bool, false, Option, none, some, List, if◌then◌else◌,
  ◌==◌, string_eq,
}
use dataprepper_operator.Base.Int.{ℤ}
use dataprepper_operator.Base.Result.{Result, ok, err}
use dataprepper_operator.Api.Pipeline.{PipelinePhase}
use dataprepper_operator.Api.Webhook.{graph_defs}
use dataprepper_operator.Validation.{GraphError, validate_graph}
use dataprepper_operator.Discovery.Cycle.{Condition}
use dataprepper_operator.Reconciler.{StatusUpdate, update_status}
use dataprepper_operator.Reconciler.Resources.{ApiError}
use dataprepper_operator.Reconciler.Planning.{Client, Libraries, Pipeline, Status}
use dataprepper_operator.Reconciler.Cycle.{
  finish, finish_with, with_graph, put_status, write_status, new_status, invalid_status,
  reconcile_spec, ensure_finalizer, reconcile,
}
use dataprepper_operator.Reconciler.Cycle.Runs.{
  IsClient, merged, with_finalizer-none, reconcile-merged,
}

-- SetStatusCondition replaces the condition of the type or adds it, and FindStatusCondition finds it.
abbrev pub IsConditions :
    (set : Condition → List Condition → List Condition)
    (find : (type : String) → List Condition → Option Condition)
    → Type 0
IsConditions set find =
    (new : Condition) (type : String) (cs : List Condition)
    → find type (set new cs) ≡ (if new.type == type then some new else find type cs)

module _ {Cluster : Type 0} (client : Client Cluster) (libraries : Libraries)
    (is_client : IsClient client) where
  put_status-stored :
      (status : Status) (name : String) (r : Result ApiError Pipeline) (c : Cluster)
      → client.get_pipeline name c ≡ r
      → (put_status client libraries status r c).0 ≡ none
      → (q : Pipeline) × (client.get_pipeline name (put_status client libraries status r c).1
          ≡ ok q)
        × (q.status ≡ status)
  put_status-stored status name (err e) c found h = cc
  put_status-stored status name (ok p) c found h =
      let next = record p { status = status } in
      let (q, stored, same) = is_client.status_stored next c h in
      (
        q,
        subst (λ n. client.get_pipeline n (client.update_status next c).1 ≡ ok q)
            (is_client.named name p c found) stored,
        same,
      )

  write_status-stored :
      (name : String) (status : Status) (c : Cluster)
      → (write_status client libraries name status c).0 ≡ none
      → (q : Pipeline) × (client.get_pipeline name (write_status client libraries name status c).1
          ≡ ok q)
        × (q.status ≡ status)
  unfolding write_status
  write_status-stored name status c =
      let f : Cluster → Option ApiError × Cluster =
        λ at. put_status client libraries status (client.get_pipeline name at) at in
      let (now, last) = is_client.retry_last f c in
      subst
        (λ (r : Option ApiError × Cluster).
          r.0 ≡ none → (q : Pipeline) × (client.get_pipeline name r.1 ≡ ok q) × (q.status ≡ status))
        (sym last) (put_status-stored status name (client.get_pipeline name now) now refl)

  finish_with-none :
      (q : ℤ) (r : Option ApiError × Cluster)
      → (finish_with client libraries q r).error ≡ none
      → (r.0 ≡ none) × ((finish_with client libraries q r).cluster ≡ r.1)
  finish_with-none q (some e, c) h = cc
  finish_with-none q (none, c) h = (refl, refl)

  abbrev update_of_run : Pipeline → PipelinePhase → Status → Cluster → StatusUpdate
  update_of_run p phase status c =
      update_status phase (client.deployment_status p.owner.name c)
        (status.replicas, status.ready_replicas)

  finish-stored :
      (p : Pipeline) (phase : PipelinePhase) (status : Status) (c : Cluster)
      → (finish client libraries p phase status c).error ≡ none
      → (q : Pipeline) × (client.get_pipeline p.owner.name
            (finish client libraries p phase status c).cluster
          ≡ ok q)
        × (q.status ≡ new_status client libraries p status (update_of_run p phase status c))
  unfolding finish
  finish-stored p phase status c h =
      let u = update_of_run p phase status c in
      let desired = new_status client libraries p status u in
      let (written, same) =
        finish_with-none u.requeue_after (write_status client libraries p.owner.name desired c) h in
      let (q, stored, equal) = write_status-stored p.owner.name desired c written in
      (q, ap (client.get_pipeline p.owner.name) same ∙ stored, equal)

  error_update :
      (deployment : Option (ℤ × ℤ)) (old : ℤ × ℤ)
      → ((update_status PipelinePhase.error deployment old).phase ≡ PipelinePhase.error)
        × ((update_status PipelinePhase.error deployment old).ready ≡ false)
  unfolding update_status
  error_update none old = (refl, refl)
  error_update (some now) old = (refl, refl)

  -- The pipeline says that its configuration is invalid, and why it is not ready.
  abbrev pub ReportsInvalid :
      (find : (type : String) → List Condition → Option Condition)
      → (generation : ℤ) → Status
      → Type 0
  ReportsInvalid find generation status =
      (status.phase ≡ PipelinePhase.error)
      × (status.observed_generation ≡ generation)
      × (find "ConfigValid" status.conditions
          ≡ some (record { type = "ConfigValid"; status = false; reason = "ValidationFailed" }))
      × ((c : Condition) × (find "Ready" status.conditions ≡ some c) × (c.status ≡ false))

  new_status-ReportsInvalid :
      (find : (type : String) → List Condition → Option Condition)
      → IsConditions libraries.set_status_condition find
      → (p : Pipeline) (deployment : Option (ℤ × ℤ))
      → ReportsInvalid find p.generation (
          new_status client libraries p (invalid_status client libraries p) (
            update_status PipelinePhase.error deployment
              (p.status.replicas, p.status.ready_replicas)))
  unfolding string_eq
  new_status-ReportsInvalid find conditions p deployment =
      let u =
        update_status PipelinePhase.error deployment (p.status.replicas, p.status.ready_replicas) in
      let update = error_update deployment (p.status.replicas, p.status.ready_replicas) in
      let ready : Condition = record { type = "Ready"; status = u.ready; reason = u.reason } in
      let invalid : Condition = record {
        type = "ConfigValid";
        status = false;
        reason = "ValidationFailed";
      } in
      let cs = libraries.set_status_condition invalid p.status.conditions in
      (
        update.0,
        refl,
        conditions ready "ConfigValid" cs ∙ conditions invalid "ConfigValid" p.status.conditions,
        (ready, conditions ready "Ready" cs, update.1),
      )

  -- A run without an error for a pipeline whose merged specification has an invalid graph: the status
  -- that is read afterwards has the phase Error, the generation of the pipeline, and the conditions
  -- ConfigValid and Ready are false.
  pub reconcile-ReportsInvalid :
      (find : (type : String) → List Condition → Option Condition)
      → IsConditions libraries.set_status_condition find
      → (available : Bool) (name : String) (p : Pipeline) (c : Cluster) (e : GraphError)
      → client.get_pipeline name c ≡ ok p
      → p.deleting ≡ false
      → validate_graph (graph_defs (merged client libraries is_client p c).pipelines) ≡ some e
      → (reconcile client libraries available name c).error ≡ none
      → (q : Pipeline) × (client.get_pipeline name
            (reconcile client libraries available name c).cluster
          ≡ ok q)
        × ReportsInvalid find p.generation q.status
  unfolding reconcile_spec
  reconcile-ReportsInvalid find conditions available name p c e found alive invalid h =
      let r = ensure_finalizer client libraries p c in
      let merging = reconcile-merged client libraries is_client available name p c found alive in
      let opened =
        merging
        ∙ with_finalizer-none client libraries is_client available p r
            (sym (ap (λ run. run.error) merging) ∙ h)
        ∙ ap
            (λ g.
              with_graph client libraries available p (merged client libraries is_client p c) g r.1)
            invalid in
      let (q, stored, equal) =
        finish-stored p PipelinePhase.error (invalid_status client libraries p) r.1
          (sym (ap (λ run. run.error) opened) ∙ h) in
      (
        q,
        ap (λ run. client.get_pipeline name run.cluster) opened
            ∙ subst
                (λ n.
                  client.get_pipeline n
                    (finish client libraries p PipelinePhase.error
                      (invalid_status client libraries p) r.1).cluster
                  ≡ ok q)
                (is_client.named name p c found) stored,
        subst (ReportsInvalid find p.generation) (sym equal) (
            new_status-ReportsInvalid find conditions p
              (client.deployment_status p.owner.name r.1)),
      )
