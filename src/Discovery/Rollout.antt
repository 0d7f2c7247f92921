-- ===== src/Discovery/Rollout.antt =====
-- The child pipelines of a discovery: reconcilePipelines of
-- datapreppersourcediscovery_controller.go. The API server and the ranges over Go maps are
-- parameters: `Api` with what its calls do to the cluster, `Orders` with the order of each range.
pub mod Laws
pub mod Writes
use Prim.Native.Nat.{max}
use dataprepper_operator.Base.{
  ℕ, zero, suc, ◌+◌, ◌-◌, ◌/◌, leb, String, ◌<>◌, Bool, true, false, not, ◌&&◌, ◌||◌, if◌then◌else◌,
  ◌==◌, string_eq, is_set, Option, none, some, List, [], ◌∷◌, length,
}
use dataprepper_operator.Base.Dict.{Dict, lookup, insert, copy_into}
use dataprepper_operator.Base.Result.{Result, ok, err}
use dataprepper_operator.Api.Pipeline.{DataPrepperPipelineSpec, PipelinePhase}
use dataprepper_operator.Discovery.Names.{sanitize_name}
use dataprepper_operator.Discovery.Sources.{DiscoveredSource}

abbrev pub discovery_label_key : String
discovery_label_key = "dataprepper.kaasops.io/discovery"

abbrev pub orphaned_label_key : String
orphaned_label_key = "dataprepper.kaasops.io/orphaned"

abbrev pub template_generation_key : String
template_generation_key = "dataprepper.kaasops.io/template-generation"

pub record OwnerReference : Type 0 where
  pub uid : String
  pub controller : Bool

-- A DataPrepperPipeline object, by what the discovery reads and writes; `deleting` is a set deletion
-- timestamp.
pub record Pipeline : Type 0 where
  pub deleting : Bool
  pub labels : Dict String
  pub annotations : Dict String
  pub owner_references : List OwnerReference
  pub spec : DataPrepperPipelineSpec
  pub phase : PipelinePhase

-- The calls of the Kubernetes client, with the error or `none` and the cluster after the call.
-- `list` answers with the objects of the namespace whose label has the value.
pub record Api (Cluster : Type 0) : Type 0 where
  pub get : String → Cluster → Option Pipeline
  pub list : (label value : String) → Cluster → Result String (Dict Pipeline)
  pub create_or_update :
      String → (Pipeline → Result String Pipeline) → Cluster → Option String × Cluster
  pub update : String → Pipeline → Cluster → Option String × Cluster
  pub delete : String → Cluster → Option String × Cluster

pub record Desired : Type 0 where
  pub spec : DataPrepperPipelineSpec
  pub hash : String

-- The entries of a map in the order in which each `range` meets them.
pub record Orders : Type 0 where
  pub creating : Dict Desired → Dict Desired
  pub updating : Dict Desired → Dict Desired
  pub checking : Dict Pipeline → Dict Pipeline

pub record ReconcileResult : Type 0 where
  pub created : ℕ
  pub updated : ℕ
  pub pending_updates : ℕ
  pub health_check_fail : Bool

pub data ReconcileError : Type 0 where
  render_failed create_failed update_failed : (name cause : String) → ReconcileError
  list_failed : String → ReconcileError

-- The discovery's own name, and what fills the owner reference (SetControllerReference).
pub record Owner : Type 0 where
  pub name : String
  pub set_controller_reference : List OwnerReference → Result String (List OwnerReference)

abbrev pub is_unhealthy : PipelinePhase → Bool
is_unhealthy PipelinePhase.degraded = true
is_unhealthy PipelinePhase.error = true
is_unhealthy _ = false

-- The annotation, or the empty text.
abbrev pub current_hash : Pipeline → String
current_hash p = elim (lookup template_generation_key p.annotations) [ none ↦ "" | some h ↦ h ]

-- The function that CreateOrUpdate applies.
unfoldable pub mutate : Owner → Desired → Pipeline → Result String Pipeline
mutate owner d p = elim (owner.set_controller_reference p.owner_references) [
  | err e ↦ err e
  | ok refs ↦ ok (record p {
    labels =
        insert discovery_label_key owner.name
          (insert "app.kubernetes.io/managed-by" "dataprepper-operator" p.labels);
    annotations = insert template_generation_key d.hash p.annotations;
    spec = d.spec;
    owner_references = refs;
  })
]

module _ (render : DiscoveredSource → Result String DataPrepperPipelineSpec)
    (compute_spec_hash : DataPrepperPipelineSpec → String) where
  -- The map of the desired pipelines, from the sources that are left.
  unfoldable pub build_desired :
      (owner : String) → Dict Desired → List DiscoveredSource → Result ReconcileError (Dict Desired)
  build_desired owner acc [] = ok acc
  build_desired owner acc (s ∷ ss) = elim (render s) [
    | err e ↦ err (render_failed s.name e)
    | ok spec ↦
        build_desired owner
          (insert (sanitize_name (owner <> "-" <> s.name))
            (record { spec = spec; hash = compute_spec_hash spec }) acc)
          ss
  ]

-- The pipelines whose hash is not the desired one.
unfoldable pub to_update : (existing : Dict Pipeline) → Dict Desired → Dict Desired
to_update existing [] = []
to_update existing ((name, d) ∷ ds) =
    let rest = to_update existing ds in
    elim (lookup name existing) [
      | none ↦ rest
      | some p ↦ if current_hash p == d.hash then rest else (name, d) ∷ rest
    ]

-- `existing.Annotations != nil`: the server keeps no empty map.
abbrev pub has_annotations : Dict String → Bool
has_annotations [] = false
has_annotations (_ ∷ _) = true

-- A pipeline that has the desired hash, from an earlier batch, and is not healthy.
unfoldable pub updated_unhealthy : (desired : Dict Desired) → Dict Pipeline → Bool
updated_unhealthy desired [] = false
updated_unhealthy desired ((name, p) ∷ ps) =
    let rest = updated_unhealthy desired ps in
    elim (lookup name desired) [
      | none ↦ rest
      | some d ↦
          has_annotations p.annotations && (current_hash p == d.hash) && is_unhealthy p.phase
          || rest
    ]

abbrev pub max_updates_per_cycle : ℕ → ℕ
max_updates_per_cycle total = max 1 ((total + 4) / 5)

-- How far a loop of writes came, and the cluster it leaves.
pub record Progress (Cluster : Type 0) : Type 0 where
  pub error : Option ReconcileError
  pub done : ℕ
  pub cluster : Cluster

module _ {Cluster : Type 0} (api : Api Cluster) (owner : Owner) where
  -- The loop stops at the first error, and else goes on.
  abbrev pub on_write :
      (String → ReconcileError) → ℕ → Cluster → Option String → Progress Cluster → Progress Cluster
  on_write fail n after none rest = rest
  on_write fail n after (some e) rest = record { error = some (fail e); done = n; cluster = after }

  -- Phase 1: the desired pipelines that are not there, at most `limit` of them.
  unfoldable pub create_missing :
      (limit : ℕ) (existing : Dict Pipeline) → Dict Desired → ℕ → Cluster → Progress Cluster
  create_missing limit existing [] n c = record { error = none; done = n; cluster = c }
  create_missing limit existing ((name, d) ∷ ds) n c =
      elim (is_set (lookup name existing) || leb limit n) [
        | true ↦ create_missing limit existing ds n c
        | false ↦
            let (failure, after) = api.create_or_update name (mutate owner d) c in
            on_write (create_failed name) n after failure
              (create_missing limit existing ds (suc n) after)
      ]

  -- Phase 4: one batch of updates. The names carry what the map `desiredPipelines` has for them.
  unfoldable pub update_batch : (batch : ℕ) → Dict Desired → ℕ → Cluster → Progress Cluster
  update_batch batch [] n c = record { error = none; done = n; cluster = c }
  update_batch batch ((name, d) ∷ ds) n c = elim (leb batch n) [
    | true ↦ record { error = none; done = n; cluster = c }
    | false ↦
        let (failure, after) = api.create_or_update name (mutate owner d) c in
        on_write (update_failed name) n after failure (update_batch batch ds (suc n) after)
  ]

pub record Outcome (Cluster : Type 0) : Type 0 where
  pub error : Option ReconcileError
  pub result : ReconcileResult
  pub cluster : Cluster

module _ {Cluster : Type 0} (api : Api Cluster) (owner : Owner) (orders : Orders) where
  abbrev pub created_only : ℕ → ReconcileResult
  created_only n = record {
    created = n;
    updated = 0;
    pending_updates = 0;
    health_check_fail = false;
  }

  abbrev pub after_batch : ℕ → ℕ → Progress Cluster → Outcome Cluster
  after_batch created todo done = record {
    error = done.error;
    result = record {
      created = created;
      updated = done.done;
      pending_updates = if is_set done.error then 0 else todo - done.done;
      health_check_fail = false;
    };
    cluster = done.cluster;
  }

  -- Phases 3 and 4, for the pipelines that need an update.
  unfoldable pub stage :
      (existing : Dict Pipeline) (unhealthy : Bool) (created : ℕ) (todo : Dict Desired)
      → Cluster
      → Outcome Cluster
  unfolding update_batch
  stage existing unhealthy created [] c = record {
    error = none;
    result = created_only created;
    cluster = c;
  }
  stage existing true created (t ∷ ts) c = record {
    error = none;
    result = record {
      created = created;
      updated = 0;
      pending_updates = length (t ∷ ts);
      health_check_fail = true;
    };
    cluster = c;
  }
  stage existing false created (t ∷ ts) c =
      after_batch created (length (t ∷ ts))
        (update_batch api owner (max_updates_per_cycle (length existing)) (t ∷ ts) 0 c)

  -- Phases 2 to 4, after `created` creations.
  unfoldable pub roll_out :
      (existing : Dict Pipeline) (desired : Dict Desired) (created : ℕ) → Cluster → Outcome Cluster
  unfolding to_update updated_unhealthy stage
  roll_out existing desired created c =
      stage existing (updated_unhealthy desired (orders.checking existing)) created
        (to_update existing (orders.updating desired)) c

  abbrev pub failed : ReconcileError → ℕ → Cluster → Outcome Cluster
  failed e created c = record { error = some e; result = created_only created; cluster = c }

  -- `desired` is the outcome of `build_desired`, `limit` that of `discovery_max_creations_per_cycle`.
  unfoldable pub reconcile_pipelines :
      (limit : ℕ) (desired : Result ReconcileError (Dict Desired)) → Cluster → Outcome Cluster
  unfolding roll_out create_missing
  reconcile_pipelines limit (err e) c = failed e 0 c
  reconcile_pipelines limit (ok desired) c = elim (api.list discovery_label_key owner.name c) [
    | err e ↦ failed (list_failed e) 0 c
    | ok items ↦
        let existing = copy_into [] items in
        let done = create_missing api owner limit existing (orders.creating desired) 0 c in
        elim done.error [
          | some e ↦ failed e done.done done.cluster
          | none ↦ roll_out existing desired done.done done.cluster
        ]
  ]
