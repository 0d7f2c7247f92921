-- ===== src/Reconciler/Cycle/Outcomes.antt =====
-- What a run of the reconciler leaves: for a valid pipeline, an invalid one, and one that is deleted.
use dataprepper_operator.Base.{
  ◌≡◌, ◌⊎◌, inl, inr, refl, sym, ◌∙◌, subst, ap, String, Bool, true, false, Option, none, some,
  if_ind, if◌then◌else◌,
}
use dataprepper_operator.Base.Result.{ok, err}
use dataprepper_operator.Api.Pipeline.{DataPrepperPipelineSpec, PipelinePhase}
use dataprepper_operator.Api.Webhook.{graph_defs}
use dataprepper_operator.Validation.{GraphError, validate_graph}
use dataprepper_operator.Defaults.{merge_spec}
use dataprepper_operator.Workload.{Owner}
use dataprepper_operator.Reconciler.Resources.{Key, ApiError, not_found, api_failed}
use dataprepper_operator.Reconciler.Resources.Server.{IsController}
use dataprepper_operator.Reconciler.Planning.{
  Client, Libraries, ReconcileError, Plan, Pipeline, make_plan,
}
use dataprepper_operator.Reconciler.Cycle.{
  Run, with_graph, with_plan, invalid_status, reconcile_spec, ensure_finalizer, with_finalizer,
  finalize, finalize_with, pipeline_finalizer_name, reconcile, reconcile_found,
}
use dataprepper_operator.Reconciler.Cycle.Runs.{
  IsClient, IsDeployed, merged, finish-only, with_plan-IsDeployed, ensure_finalizer-only,
  with_finalizer-none, reconcile-merged,
}

module _ {Cluster : Type 0} (client : Client Cluster) (libraries : Libraries)
    (is_client : IsClient client) where
  IsDeployed-from :
      (p : Pipeline) (spec : DataPrepperPipelineSpec) (plan : Plan) (before start after : Cluster)
      → ((k : Key) → client.objects.get k start ≡ client.objects.get k before)
      → IsDeployed client libraries is_client p.owner spec plan start after
      → IsDeployed client libraries is_client p.owner spec plan before after
  IsDeployed-from p spec plan before start after same h =
      (h.0, λ k elsewhere other. h.1 k elsewhere other ∙ same k)

  reconcile_spec-IsDeployed :
      (available : Bool) (p : Pipeline) (spec : DataPrepperPipelineSpec) (c : Cluster)
      → IsController libraries.set_controller_reference
      → validate_graph (graph_defs spec.pipelines) ≡ none
      → (reconcile_spec client libraries available p spec c).error ≡ none
      → (plan : Plan) × (make_plan client libraries p.owner spec c ≡ ok plan)
        × IsDeployed client libraries is_client p.owner spec plan c
            (reconcile_spec client libraries available p spec c).cluster
  unfolding reconcile_spec
  reconcile_spec-IsDeployed available p spec c controller valid h =
      let opened = ap (λ g. with_graph client libraries available p spec g c) valid in
      subst
        (λ run.
          (plan : Plan) × (make_plan client libraries p.owner spec c ≡ ok plan)
          × IsDeployed client libraries is_client p.owner spec plan c run.cluster)
        (sym opened)
        (with_plan-IsDeployed client libraries is_client available p spec
          (make_plan client libraries p.owner spec c) c controller
          (sym (ap (λ run. run.error) opened) ∙ h))

  -- A run without an error, for a pipeline that is not being deleted and whose merged specification
  -- has a valid graph: each object of the plan exists as the plan wants it if it is needed, and does
  -- not exist otherwise, and every other object but the monitor is as it was.
  pub reconcile-IsDeployed :
      (available : Bool) (name : String) (p : Pipeline) (c : Cluster)
      → IsController libraries.set_controller_reference
      → client.get_pipeline name c ≡ ok p
      → p.deleting ≡ false
      → validate_graph (graph_defs (merged client libraries is_client p c).pipelines) ≡ none
      → (reconcile client libraries available name c).error ≡ none
      → (plan : Plan) × (make_plan client libraries p.owner
            (merged client libraries is_client p c)
            (ensure_finalizer client libraries p c).1
          ≡ ok plan)
        × IsDeployed client libraries is_client p.owner
            (merged client libraries is_client p c)
            plan
            c
            (reconcile client libraries available name c).cluster
  reconcile-IsDeployed available name p c controller found alive valid h =
      let start = (ensure_finalizer client libraries p c).1 in
      let opened = reconcile-merged client libraries is_client available name p c found alive in
      let opened =
        opened
        ∙ with_finalizer-none client libraries is_client available p
            (ensure_finalizer client libraries p c) (sym (ap (λ run. run.error) opened) ∙ h) in
      let spec = merged client libraries is_client p c in
      let (plan, planned, deployed) =
        reconcile_spec-IsDeployed available p spec start controller valid
          (sym (ap (λ run. run.error) opened) ∙ h) in
      (
        plan,
        planned,
        subst (λ run. IsDeployed client libraries is_client p.owner spec plan c run.cluster)
            (sym opened)
            (IsDeployed-from p spec plan c start
              (reconcile_spec client libraries available p spec start).cluster
              (λ k. ensure_finalizer-only client libraries is_client p k c) deployed),
      )

  -- The merged specification allows no writes: its graph is invalid, or its files cannot be made.
  abbrev pub IsRefused : Owner → DataPrepperPipelineSpec → Cluster → Type 0
  IsRefused owner spec c =
      ((e : GraphError) × (validate_graph (graph_defs spec.pipelines) ≡ some e))
      ⊎ ((validate_graph (graph_defs spec.pipelines) ≡ none)
          × (e : ReconcileError) × (make_plan client libraries owner spec c ≡ err e))

  reconcile_spec-refused :
      (available : Bool) (p : Pipeline) (spec : DataPrepperPipelineSpec) (k : Key) (c : Cluster)
      → IsRefused p.owner spec c
      → client.objects.get k (reconcile_spec client libraries available p spec c).cluster
        ≡ client.objects.get k c
  unfolding reconcile_spec
  reconcile_spec-refused available p spec k c (inl (e, invalid)) =
      ap (λ g. client.objects.get k (with_graph client libraries available p spec g c).cluster)
        invalid
      ∙ finish-only client libraries is_client p PipelinePhase.error
          (invalid_status client libraries p) k c
  reconcile_spec-refused available p spec k c (inr (valid, e, unplanned)) =
      ap (λ g. client.objects.get k (with_graph client libraries available p spec g c).cluster)
        valid
      ∙ ap (λ r. client.objects.get k (with_plan client libraries available p spec r c).cluster)
          unplanned

  with_finalizer-refused :
      (available : Bool) (p : Pipeline) (r : Option ApiError × Cluster) (k : Key)
      → IsRefused p.owner (merge_spec (client.get_defaults r.1) p.spec) r.1
      → client.objects.get k (with_finalizer client libraries available p r).cluster
        ≡ client.objects.get k r.1
  with_finalizer-refused available p (some e, c) k refused = refl
  with_finalizer-refused available p (none, c) k refused =
      reconcile_spec-refused available p (merge_spec (client.get_defaults c) p.spec) k c refused

  finalize_with-cluster :
      (r : Option ApiError × Cluster) → (finalize_with client libraries r).cluster ≡ r.1
  finalize_with-cluster (some e, c) = refl
  finalize_with-cluster (none, c) = refl

  finalize-only :
      (p : Pipeline) (k : Key) (c : Cluster)
      → client.objects.get k (finalize client libraries p c).cluster ≡ client.objects.get k c
  unfolding finalize
  finalize-only p k c =
      if_ind (λ (run : Run Cluster). client.objects.get k run.cluster ≡ client.objects.get k c)
        (libraries.contains_finalizer pipeline_finalizer_name p.finalizers) _ _
        (λ h.
          let next = record p {
            finalizers = libraries.remove_finalizer pipeline_finalizer_name p.finalizers;
          } in
          ap (client.objects.get k) (finalize_with-cluster (client.update next c))
          ∙ is_client.update_only next k c)
        (λ h. refl)

  -- A run for a pipeline that is being deleted, that does not exist, or whose specification is
  -- refused changes no object.
  pub reconcile-untouched :
      (available : Bool) (name : String) (c : Cluster) (k : Key)
      → ((e : ApiError) × (client.get_pipeline name c ≡ err e))
        ⊎ ((p : Pipeline) × (client.get_pipeline name c ≡ ok p)
            × ((p.deleting ≡ true)
                ⊎ ((p.deleting ≡ false)
                    × IsRefused p.owner
                        (merged client libraries is_client p c)
                        (ensure_finalizer client libraries p c).1)))
      → client.objects.get k (reconcile client libraries available name c).cluster
        ≡ client.objects.get k c
  unfolding reconcile
  reconcile-untouched available name c k (inl (not_found, unread)) =
      ap (λ r. client.objects.get k (reconcile_found client libraries available r c).cluster) unread
  reconcile-untouched available name c k (inl (api_failed cause, unread)) =
      ap (λ r. client.objects.get k (reconcile_found client libraries available r c).cluster) unread
  reconcile-untouched available name c k (inr (p, found, inl deleting)) =
      ap (λ r. client.objects.get k (reconcile_found client libraries available r c).cluster) found
      ∙ ap
          (λ b.
            client.objects.get k
              (if b
                then finalize client libraries p c
                else with_finalizer client libraries available p
                    (ensure_finalizer client libraries p c)).cluster)
          deleting
      ∙ finalize-only p k c
  reconcile-untouched available name c k (inr (p, found, inr (alive, refused))) =
      ap (λ run. client.objects.get k run.cluster)
        (reconcile-merged client libraries is_client available name p c found alive)
      ∙ with_finalizer-refused available p (ensure_finalizer client libraries p c) k refused
      ∙ ensure_finalizer-only client libraries is_client p k c
