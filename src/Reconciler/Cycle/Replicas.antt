-- ===== src/Reconciler/Cycle/Replicas.antt =====
-- The replicas that a run writes.
use dataprepper_operator.Base.{◌≡◌, ◌∙◌, ap, String, Bool, true, false, none}
use dataprepper_operator.Base.Dict.{Dict}
use dataprepper_operator.Base.Int.{ℤ, pos}
use dataprepper_operator.Base.Result.{ok}
use dataprepper_operator.Api.Pipeline.{DataPrepperPipelineSpec}
use dataprepper_operator.Api.Webhook.{graph_defs}
use dataprepper_operator.Validation.{validate_graph}
use dataprepper_operator.Workload.{Owner, PodTemplate, generate_deployment}
use dataprepper_operator.Reconciler.{Decision, calculate_scaling, min_replicas_of, without_kafka}
use dataprepper_operator.Reconciler.Resources.{deployment_kind, deployment_spec, Object}
use dataprepper_operator.Reconciler.Resources.Server.{IsController}
use dataprepper_operator.Reconciler.Planning.{
  Client, Libraries, Plan, Pipeline, replicas_of, wanted,
}
use dataprepper_operator.Reconciler.Cycle.{reconcile, ensure_finalizer}
use dataprepper_operator.Reconciler.Cycle.Runs.{IsClient, IsDeployed, merged}
use dataprepper_operator.Reconciler.Cycle.Outcomes.{reconcile-IsDeployed}
use dataprepper_operator.Reconciler.Cycle.Plans.{calculate_scaling-IsStart, make_plan-coherent}

hpa-replicas : (lo : ℤ) (d : Decision) → d ≡ without_kafka lo (pos 0) true none → replicas_of d ≡ lo
hpa-replicas lo d h = ap replicas_of h

module _ {Cluster : Type 0} (client : Client Cluster) (libraries : Libraries)
    (is_client : IsClient client) where
  deployed :
      (owner : Owner) (spec : DataPrepperPipelineSpec) (plan : Plan) (before after : Cluster)
      → IsDeployed client libraries is_client owner spec plan before after
      → (o : Object) × (selector : Dict String) × (template : PodTemplate) × (client.objects.get
            (record { kind = deployment_kind; name = owner.name })
            after
          ≡ ok o)
        × (o.spec ≡ deployment_spec plan.replicas selector template)
  unfolding wanted generate_deployment
  deployed owner spec plan before after h =
      let (o, stored, made) = h.0.1.1.0 in
      let d =
        generate_deployment libraries.decimal owner spec plan.replicas plan.needs_peer_forwarder
          plan.config_hash in
      (o, d.selector, d.template, stored, made.filled)

  -- A run without an error, for a pipeline that is not being deleted and whose merged specification
  -- has a valid graph, leaves a Deployment with the replicas that calculateScaling decided on, one if
  -- it failed. With an autoscaler these are the minimum of the specification, whatever number the
  -- autoscaler had set before the run.
  pub reconcile-replicas :
      (available : Bool) (name : String) (p : Pipeline) (c : Cluster)
      → IsController libraries.set_controller_reference
      → client.get_pipeline name c ≡ ok p
      → p.deleting ≡ false
      → validate_graph (graph_defs (merged client libraries is_client p c).pipelines) ≡ none
      → (reconcile client libraries available name c).error ≡ none
      → (let spec = merged client libraries is_client p c in
          let at = (ensure_finalizer client libraries p c).1 in
          let d = calculate_scaling libraries.int32_of_inf (client.count_partitions at) spec in
          (o : Object) × (selector : Dict String) × (template : PodTemplate) × (client.objects.get
              (record { kind = deployment_kind; name = p.owner.name })
              (reconcile client libraries available name c).cluster
            ≡ ok o)
          × (o.spec ≡ deployment_spec (replicas_of d) selector template)
          × (d.use_hpa ≡ true → replicas_of d ≡ min_replicas_of spec.scaling))
  reconcile-replicas available name p c controller found alive valid h =
      let spec = merged client libraries is_client p c in
      let at = (ensure_finalizer client libraries p c).1 in
      let d = calculate_scaling libraries.int32_of_inf (client.count_partitions at) spec in
      let (plan, planned, done) =
        reconcile-IsDeployed client libraries is_client available name p c controller found alive
          valid h in
      let (o, selector, template, stored, filled) =
        deployed p.owner spec plan c (reconcile client libraries available name c).cluster done in
      let (scaling, replicas, rest) =
        make_plan-coherent client libraries p.owner spec at plan planned in
      (
        o,
        selector,
        template,
        stored,
        filled ∙ ap (λ n. deployment_spec n selector template) replicas,
        λ hpa. hpa-replicas (min_replicas_of spec.scaling) d (
            calculate_scaling-IsStart libraries.int32_of_inf (client.count_partitions at) spec hpa),
      )
