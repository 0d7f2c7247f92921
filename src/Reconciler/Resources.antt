-- ===== src/Reconciler/Resources.antt =====
-- What the pipeline reconciler does to the objects that a pipeline owns: reconcileOrDelete of
-- internal/controller/helpers.go and reconcileConfigMap, reconcileDeployment, reconcileService,
-- reconcileHeadlessService, reconcileHPA, reconcilePDB and reconcileServiceMonitor of
-- internal/controller/dataprepperpipeline_controller.go. The Kubernetes client is the parameter
-- `api`, and SetControllerReference the parameter `set_controller_reference`.
pub mod Server
pub mod Settled
use dataprepper_operator.Base.{
  String, ◌<>◌, Bool, true, false, Option, none, some, List, [], ◌∷◌, if◌then◌else◌, ◌==◌,
  string_eq, ◌&&◌, nat_eq, ℕ,
}
use dataprepper_operator.Base.Dict.{Dict}
use dataprepper_operator.Base.Int.{ℤ, pos, ltb_ℤ}
use dataprepper_operator.Base.Result.{Result, ok, err}
use dataprepper_operator.Api.Pipeline.{DataPrepperPipelineSpec}
use dataprepper_operator.Generator.Helpers.{common_labels}
use dataprepper_operator.Discovery.Rollout.{OwnerReference}
use dataprepper_operator.Reconciler.{min_replicas_of, max_replicas_of}
use dataprepper_operator.Workload.{
  Owner, Meta, ServicePort, PodTemplate, Deployment, Service, Hpa, Pdb, ServiceMonitor,
  generate_service, generate_headless_service, generate_hpa, generate_pdb, generate_service_monitor,
}

pub data Kind : Type 0 where
  config_map_kind deployment_kind service_kind hpa_kind pdb_kind monitor_kind : Kind

abbrev pub kind_index : Kind → ℕ
kind_index config_map_kind = 0
kind_index deployment_kind = 1
kind_index service_kind = 2
kind_index hpa_kind = 3
kind_index pdb_kind = 4
kind_index monitor_kind = 5

-- The objects of a run stand in the namespace of the pipeline.
pub record Key : Type 0 where
  pub kind : Kind
  pub name : String

abbrev pub key_eq : Key → Key → Bool
key_eq a b = kind_index a.kind == kind_index b.kind && a.name == b.name

-- The part of an object that the reconciler writes, and the address of a service, which it leaves.
pub data Spec : Type 0 where
  config_data : Dict String → Spec
  deployment_spec : (replicas : ℤ) (selector : Dict String) (template : PodTemplate) → Spec
  service_spec :
      (type cluster_ip : String) (selector : Dict String) (ports : List ServicePort) → Spec
  hpa_spec : (target : String) (min_replicas max_replicas target_cpu : ℤ) → Spec
  pdb_spec : (min_available : ℤ) (match_labels : Dict String) → Spec
  monitor_spec : (match_labels : Dict String) (port path interval : String) → Spec

pub record Object : Type 0 where
  pub labels : Dict String
  pub owner_references : List OwnerReference
  pub spec : Spec

pub data ApiError : Type 0 where
  not_found : ApiError
  api_failed : String → ApiError

-- The calls of the client, with the error or `none` and the cluster after the call. `Object` is
-- given to create_or_update for a key that the cluster does not have.
pub record Api (Cluster : Type 0) : Type 0 where
  pub get : Key → Cluster → Result ApiError Object
  pub create_or_update :
      Key → Object → (Object → Result String Object) → Cluster → Option String × Cluster
  pub delete : Key → Cluster → Option String × Cluster

-- An object without labels and owner.
abbrev pub blank : Spec → Object
blank s = record { labels = []; owner_references = []; spec = s }

abbrev pub cluster_ip_of : Spec → String
cluster_ip_of (service_spec _ ip _ _) = ip
cluster_ip_of _ = ""

-- What a run wants of one object: whether it is needed, its labels, and its content made from the
-- content that the object has.
pub record Wanted : Type 0 where
  pub key : Key
  pub needed : Bool
  pub labels : Dict String
  pub empty : Spec
  pub content : Spec → Spec

module _
    (set_controller_reference : List OwnerReference → Result String (List OwnerReference)) where
  -- The functions that CreateOrUpdate applies: the labels, the content, the owner.
  unfoldable pub mutate : Wanted → Object → Result String Object
  mutate w o = elim (set_controller_reference o.owner_references) [
    | err e ↦ err e
    | ok refs ↦ ok (record { labels = w.labels; owner_references = refs; spec = w.content o.spec })
  ]

  module _ {Cluster : Type 0} (api : Api Cluster) where
    -- What is not needed is deleted, if the read finds it.
    abbrev pub delete_found : Key → Result ApiError Object → Cluster → Option String × Cluster
    delete_found k (ok o) c = api.delete k c
    delete_found k (err not_found) c = (none, c)
    delete_found k (err (api_failed cause)) c = (some cause, c)

    unfoldable pub reconcile_or_delete : Wanted → Cluster → Option String × Cluster
    unfolding mutate
    reconcile_or_delete w c =
        if w.needed
        then api.create_or_update w.key (blank w.empty) (mutate w) c
        else delete_found w.key (api.get w.key c) c

-- The config maps and the Deployment are always needed: their functions call CreateOrUpdate, as
-- reconcileOrDelete does for an object that is needed.
abbrev pub config_map : Owner → (name : String) → Dict String → Wanted
config_map owner name entries = record {
  key = record { kind = config_map_kind; name = name };
  needed = true;
  labels = common_labels owner.name;
  empty = config_data [];
  content = λ s. config_data entries;
}

abbrev no_pods : PodTemplate → Spec
no_pods t = deployment_spec (pos 0) [] t

abbrev pub deployment : Deployment → Wanted
deployment d = record {
  key = record { kind = deployment_kind; name = d.meta.name };
  needed = true;
  labels = d.meta.labels;
  empty = no_pods d.template;
  content = λ s. deployment_spec d.replicas d.selector d.template;
}

-- The address of a service that exists is kept.
abbrev pub service : Owner → Bool → Service → Wanted
service owner needed d = record {
  key = record { kind = service_kind; name = owner.name };
  needed = needed;
  labels = d.meta.labels;
  empty = service_spec "" "" [] [];
  content = λ s. service_spec d.type (cluster_ip_of s) d.selector d.ports;
}

abbrev pub headless_service : Owner → Bool → Wanted
headless_service owner needed =
    let d = generate_headless_service owner in
    record {
      key = record { kind = service_kind; name = owner.name <> "-headless" };
      needed = needed;
      labels = d.meta.labels;
      empty = service_spec "" "" [] [];
      content = λ s. service_spec d.type d.cluster_ip d.selector d.ports;
    }

abbrev pub default_target_cpu : ℤ
default_target_cpu = pos 70

abbrev pub hpa : Owner → DataPrepperPipelineSpec → Bool → Wanted
hpa owner spec needed =
    let d =
      generate_hpa owner (min_replicas_of spec.scaling) (max_replicas_of spec.scaling)
        default_target_cpu in
    record {
      key = record { kind = hpa_kind; name = owner.name };
      needed = needed;
      labels = d.meta.labels;
      empty = hpa_spec "" (pos 0) (pos 0) (pos 0);
      content = λ s. hpa_spec d.target d.min_replicas d.max_replicas d.target_cpu;
    }

abbrev pub pdb : Owner → (replicas : ℤ) → Wanted
pdb owner replicas =
    let d = generate_pdb owner replicas in
    record {
      key = record { kind = pdb_kind; name = owner.name };
      needed = ltb_ℤ (pos 1) replicas;
      labels = d.meta.labels;
      empty = pdb_spec (pos 0) [];
      content = λ s. pdb_spec d.min_available d.match_labels;
    }

abbrev pub service_monitor : Owner → DataPrepperPipelineSpec → Bool → Wanted
service_monitor owner spec needed =
    let d = generate_service_monitor owner spec in
    record {
      key = record { kind = monitor_kind; name = owner.name };
      needed = needed;
      labels = d.meta.labels;
      empty = monitor_spec [] "" "" "";
      content = λ s. monitor_spec d.match_labels d.port d.path d.interval;
    }
