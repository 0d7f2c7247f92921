-- ===== src/Tests/Cycle.antt =====
-- Whole runs of the pipeline reconciler at concrete inputs.
use dataprepper_operator.Base.Dict.{Dict, lookup, insert}
use dataprepper_operator.Api.Json.{end}
use dataprepper_operator.Api.Webhook.{graph_defs}
use dataprepper_operator.Validation.{GraphError, unknown_source, validate_graph}
use dataprepper_operator.Defaults.{merge_spec}
use dataprepper_operator.Scaler.{calculate_static}
use dataprepper_operator.Generator.Helpers.{json_to_map}
use dataprepper_operator.Workload.{PodTemplate}
use dataprepper_operator.Reconciler.{calculate_scaling, min_replicas_of, static_decision}
use dataprepper_operator.Reconciler.Resources.{Key, Object, deployment_kind, deployment_spec}
use dataprepper_operator.Reconciler.Cycle.Runs.{IsDeployed, merged}
use dataprepper_operator.Reconciler.Cycle.Outcomes.{reconcile-IsDeployed, reconcile-untouched}
use dataprepper_operator.Reconciler.Cycle.Reports.{ReportsInvalid, reconcile-ReportsInvalid}
use dataprepper_operator.Reconciler.Cycle.Replicas.{reconcile-replicas}
use dataprepper_operator.Reconciler.Cycle.Writes.{AllSettled}
use dataprepper_operator.Reconciler.Cycle.Laws.{wanted-converges}
use dataprepper_operator.Reconciler.Cycle.Accepted.{validate_pipeline-make_plan}
use dataprepper_operator.Base.{
  ◌≡◌, refl, string_eq, ℕ_discrete, true, false, String, none, some, [], ◌∷◌, inl, inr,
}
use dataprepper_operator.Base.Int.{pos}
use dataprepper_operator.Base.Result.{ok}
use dataprepper_operator.Tests.Samples.{two_pipelines, storing, with_image, read_defaults, accepted}
use dataprepper_operator.Tests.Cluster.{
  Cluster, client, libraries, client-IsClient, libraries-IsController, libraries-owns,
  server-IsServer, server-IsAvailable, find_condition, set_condition-IsConditions,
}
use dataprepper_operator.Api.Pipeline.{PipelinePhase}
use dataprepper_operator.Reconciler.Planning.{Pipeline, Plan, make_plan, replicas_of, wanted}
use dataprepper_operator.Reconciler.Cycle.{ensure_finalizer, apply, reconcile}

abbrev logs : Pipeline
logs = record {
  owner = record { name = "logs"; namespace = "prod" };
  generation = pos 3;
  deleting = false;
  finalizers = [];
  spec = two_pipelines;
  status = record {
    phase = PipelinePhase.unset;
    replicas = pos 0;
    ready_replicas = pos 0;
    observed_generation = pos 0;
    conditions = [];
    kafka = none;
  };
}

abbrev start : Cluster
start = record { objects = λ k. none; pipelines = λ n. some logs }

abbrev after : Cluster
after = (reconcile client libraries true "logs" start).cluster

run_ends : (reconcile client libraries true "logs" start).error ≡ none
unfolding reconcile string_eq lookup insert ℕ_discrete calculate_static
run_ends = refl

is_valid :
    validate_graph (graph_defs (merged client libraries client-IsClient logs start).pipelines)
    ≡ none
unfolding validate_graph graph_defs merge_spec string_eq ℕ_discrete lookup insert
is_valid = refl

is_found : client.get_pipeline "logs" start ≡ ok logs
unfolding string_eq
is_found = refl

reconcile-IsDeployed_example :
    (plan : Plan) × (make_plan client libraries logs.owner
        (merged client libraries client-IsClient logs start)
        (ensure_finalizer client libraries logs start).1
      ≡ ok plan)
    × IsDeployed client libraries client-IsClient logs.owner
        (merged client libraries client-IsClient logs start)
        plan
        start
        after
reconcile-IsDeployed_example =
    reconcile-IsDeployed client libraries client-IsClient true "logs" logs start
      libraries-IsController is_found refl is_valid run_ends

reconcile-replicas_example :
    (let spec = merged client libraries client-IsClient logs start in
      let d = calculate_scaling (pos 0) none spec in
      (o : Object) × (selector : Dict String) × (template : PodTemplate) × (client.objects.get
          (record { kind = deployment_kind; name = "logs" })
          after
        ≡ ok o)
      × (o.spec ≡ deployment_spec (replicas_of d) selector template)
      × (d.use_hpa ≡ true → replicas_of d ≡ min_replicas_of spec.scaling))
reconcile-replicas_example =
    reconcile-replicas client libraries client-IsClient true "logs" logs start
      libraries-IsController is_found refl is_valid run_ends

-- The source of the only definition does not exist.
abbrev dangling : Pipeline
dangling = record logs { spec = record two_pipelines { pipelines = storing ∷ [] } }

abbrev bad_start : Cluster
bad_start = record { objects = λ k. none; pipelines = λ n. some dangling }

dangling_found : client.get_pipeline "logs" bad_start ≡ ok dangling
unfolding string_eq
dangling_found = refl

abbrev dangling_error : GraphError
dangling_error = unknown_source "store" "entry"

is_invalid :
    validate_graph
      (graph_defs (merged client libraries client-IsClient dangling bad_start).pipelines)
    ≡ some dangling_error
unfolding validate_graph graph_defs merge_spec string_eq ℕ_discrete
is_invalid = refl

bad_run_ends : (reconcile client libraries true "logs" bad_start).error ≡ none
unfolding reconcile string_eq ℕ_discrete
bad_run_ends = refl

reconcile-ReportsInvalid_example :
    (q : Pipeline) × (client.get_pipeline "logs"
        (reconcile client libraries true "logs" bad_start).cluster
      ≡ ok q)
    × ReportsInvalid client libraries client-IsClient find_condition (pos 3) q.status
reconcile-ReportsInvalid_example =
    reconcile-ReportsInvalid client libraries client-IsClient find_condition
      set_condition-IsConditions true "logs" dangling bad_start dangling_error dangling_found refl
      is_invalid bad_run_ends

reconcile-untouched_example :
    client.objects.get
      (record { kind = deployment_kind; name = "logs" })
      (reconcile client libraries true "logs" bad_start).cluster
    ≡ client.objects.get (record { kind = deployment_kind; name = "logs" }) bad_start
reconcile-untouched_example =
    reconcile-untouched client libraries client-IsClient true "logs" bad_start
      (record { kind = deployment_kind; name = "logs" })
      (inr (dangling, dangling_found, inr (refl, inl (dangling_error, is_invalid))))

abbrev two_replicas : Plan
two_replicas = record {
  scaling = static_decision (pos 2);
  replicas = pos 2;
  needs_peer_forwarder = true;
  pipelines_yaml = "entry:";
  dp_config_yaml = "ssl: false";
  config_hash = "0123";
}

wanted-converges_example :
    (let ws = wanted libraries.decimal logs.owner two_pipelines two_replicas in
      let first = apply client libraries ws start in
      let second = apply client libraries ws first.1 in
      (first.0 ≡ none)
      × AllSettled client libraries server-IsServer ws first.1
      × (second.0 ≡ none)
      × ((k : Key) → client.objects.get k second.1 ≡ client.objects.get k first.1))
wanted-converges_example =
    wanted-converges client libraries server-IsServer logs.owner two_pipelines two_replicas start
      server-IsAvailable libraries-IsController libraries-owns

validate_pipeline-make_plan_example :
    (validate_graph (graph_defs (merge_spec (some with_image) two_pipelines).pipelines) ≡ none)
    × (plan : Plan) × (make_plan client libraries logs.owner
          (merge_spec (some with_image) two_pipelines)
          start
        ≡ ok plan)
unfolding json_to_map merge_spec
validate_pipeline-make_plan_example =
    validate_pipeline-make_plan client libraries (some read_defaults) "logs" "prod"
      (some with_image) two_pipelines logs.owner start (λ fs. ("yaml", refl)) accepted
      (((end, refl), tt), (tt, tt)) tt
