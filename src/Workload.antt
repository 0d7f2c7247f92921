-- ===== src/Workload.antt =====
-- The Kubernetes objects of a pipeline: internal/generator/deployment.go, service.go, hpa.go and
-- pdb.go. The objects are records of what the generators set; `decimal` is fmt's "%d". The volumes'
-- mount paths, the image's probes and the values that are copied from the specification are fields
-- as well.
pub mod Selectors
pub mod Ports
use dataprepper_operator.Base.{
  ℕ, String, ◌<>◌, Bool, true, false, not, if◌then◌else◌, ◌==◌, string_eq, Option, none, some, List,
  [], ◌∷◌, ◌++◌, map,
}
use dataprepper_operator.Base.Int.{ℤ, pos, ◌-ℤ◌, to_int32}
use dataprepper_operator.Base.Dict.{Dict, copy_into}
use dataprepper_operator.Api.Json.{Value}
use dataprepper_operator.Api.Common.{ResourceRequirements, PerReplicaResources, ServiceMonitorSpec}
use dataprepper_operator.Api.Pipeline.{PipelineDefinition, DataPrepperPipelineSpec}
use dataprepper_operator.Scaler.{max_ℤ}
use dataprepper_operator.Generator.Helpers.{common_labels, selector_labels, source_ports}
use dataprepper_operator.Generator.Credentials.{EnvVar, credential_env_vars}

-- The name and namespace of the owner, a DataPrepperPipeline.
pub record Owner : Type 0 where
  pub name : String
  pub namespace : String

pub record Meta : Type 0 where
  pub name : String
  pub namespace : String
  pub labels : Dict String

abbrev pub meta_of : Owner → (name : String) → Meta
meta_of owner name = record {
  name = name;
  namespace = owner.namespace;
  labels = common_labels owner.name;
}

-- A port of a container or a service; all are TCP.
pub record Port : Type 0 where
  pub name : String
  pub number : ℤ

pub record ServicePort : Type 0 where
  pub name : String
  pub number : ℤ
  pub target : ℤ

pub record Service : Type 0 where
  pub meta : Meta
  pub type : String
  -- "None" for a headless service, and empty where the cluster chooses.
  pub cluster_ip : String
  pub selector : Dict String
  pub ports : List ServicePort

pub record ServiceMonitor : Type 0 where
  pub meta : Meta
  pub match_labels : Dict String
  pub port : String
  pub path : String
  pub interval : String

-- The target is a Deployment, and the metric the average use of its CPU in percent.
pub record Hpa : Type 0 where
  pub meta : Meta
  pub target : String
  pub min_replicas : ℤ
  pub max_replicas : ℤ
  pub target_cpu : ℤ

pub record Pdb : Type 0 where
  pub meta : Meta
  pub min_available : ℤ
  pub match_labels : Dict String

-- A volume from a config map, and where it is mounted, read-only.
pub record Volume : Type 0 where
  pub name : String
  pub config_map : String

pub record VolumeMount : Type 0 where
  pub name : String
  pub mount_path : String
  pub sub_path : String

-- A TCP probe.
pub record Probe : Type 0 where
  pub port : ℤ
  pub period_seconds : ℤ
  pub failure_threshold : ℤ

pub record Container : Type 0 where
  pub name : String
  pub image : String
  pub image_pull_policy : String
  pub ports : List Port
  pub volume_mounts : List VolumeMount
  pub env : List EnvVar
  pub startup_probe : Probe
  pub readiness_probe : Probe
  pub liveness_probe : Probe
  pub resources : ResourceRequirements
  pub security_context : Option Value

pub record PodTemplate : Type 0 where
  pub labels : Dict String
  pub annotations : Dict String
  pub termination_grace_period_seconds : ℤ
  pub security_context : Option Value
  pub service_account_name : String
  pub container : Container
  pub volumes : List Volume
  pub node_selector : Dict String
  pub tolerations : List Value
  pub affinity : Option Value

pub record Deployment : Type 0 where
  pub meta : Meta
  pub replicas : ℤ
  pub selector : Dict String
  pub template : PodTemplate

abbrev pub config_hash_annotation : String
config_hash_annotation = "dataprepper.kaasops.io/config-hash"

abbrev pub tcp_probe : (period threshold : ℤ) → Probe
tcp_probe period threshold = record {
  port = pos 4900;
  period_seconds = period;
  failure_threshold = threshold;
}

unfoldable pub pod_labels : Owner → DataPrepperPipelineSpec → Dict String
unfolding selector_labels copy_into
pod_labels owner spec = copy_into (copy_into [] (selector_labels owner.name)) spec.pod_labels

unfoldable pub pod_annotations : (config_hash : String) → DataPrepperPipelineSpec → Dict String
unfolding copy_into
pod_annotations config_hash spec =
    copy_into ((config_hash_annotation, config_hash) ∷ []) spec.pod_annotations

abbrev pub requirements_of : Option PerReplicaResources → ResourceRequirements
requirements_of none = record { requests = []; limits = [] }
requirements_of (some r) = r.per_replica

module _ (decimal : ℤ → String) where
  abbrev pub container_port : ℤ → Port
  container_port p = record { name = "source-" <> decimal p; number = p }

  abbrev pub service_port : ℤ → ServicePort
  service_port p = record { name = "source-" <> decimal p; number = p; target = p }

  unfoldable pub container_ports :
      (needs_peer_forwarder : Bool) → List PipelineDefinition → List Port
  container_ports needs_peer_forwarder ps =
      record { name = "health"; number = pos 4900 }
        ∷ (if needs_peer_forwarder
            then record { name = "peer-fwd"; number = pos 4994 } ∷ []
            else [])
      ++ map container_port (source_ports ps)

  unfoldable pub container_of : (needs_peer_forwarder : Bool) → DataPrepperPipelineSpec → Container
  unfolding container_ports
  container_of needs_peer_forwarder spec = record {
    name = "data-prepper";
    image = spec.image;
    image_pull_policy =
        if not (spec.image_pull_policy == "") then spec.image_pull_policy else "IfNotPresent";
    ports = container_ports needs_peer_forwarder spec.pipelines;
    volume_mounts =
        record {
          name = "pipelines-config";
          mount_path = "/usr/share/data-prepper/pipelines/";
          sub_path = "";
        }
        ∷ record {
          name = "dp-config";
          mount_path = "/usr/share/data-prepper/config/data-prepper-config.yaml";
          sub_path = "data-prepper-config.yaml";
        }
        ∷ [];
    env = credential_env_vars spec.pipelines;
    startup_probe = tcp_probe (pos 10) (pos 30);
    readiness_probe = tcp_probe (pos 10) (pos 3);
    liveness_probe = tcp_probe (pos 20) (pos 3);
    resources = requirements_of spec.resources;
    security_context = spec.security_context;
  }

  unfoldable pub generate_deployment :
      Owner
      → DataPrepperPipelineSpec
      → (replicas : ℤ) (needs_peer_forwarder : Bool) (config_hash : String) → Deployment
  unfolding pod_labels pod_annotations container_of
  generate_deployment owner spec replicas needs_peer_forwarder config_hash = record {
    meta = meta_of owner owner.name;
    replicas = replicas;
    selector = selector_labels owner.name;
    template = record {
      labels = pod_labels owner spec;
      annotations = pod_annotations config_hash spec;
      termination_grace_period_seconds = pos 60;
      security_context = spec.pod_security_context;
      service_account_name = spec.service_account_name;
      container = container_of needs_peer_forwarder spec;
      volumes =
          record { name = "pipelines-config"; config_map = owner.name <> "-pipelines" }
          ∷ record { name = "dp-config"; config_map = owner.name <> "-config" }
          ∷ [];
      node_selector = spec.node_selector;
      tolerations = spec.tolerations;
      affinity = spec.affinity;
    };
  }

  unfoldable pub generate_service : Owner → DataPrepperPipelineSpec → Service
  generate_service owner spec = record {
    meta = meta_of owner owner.name;
    type = "ClusterIP";
    cluster_ip = "";
    selector = selector_labels owner.name;
    ports =
        record { name = "metrics"; number = pos 4900; target = pos 4900 }
        ∷ map service_port (source_ports spec.pipelines);
  }

unfoldable pub generate_headless_service : Owner → Service
generate_headless_service owner = record {
  meta = meta_of owner (owner.name <> "-headless");
  type = "ClusterIP";
  cluster_ip = "None";
  selector = selector_labels owner.name;
  ports = record { name = "peer-fwd"; number = pos 4994; target = pos 4994 } ∷ [];
}

abbrev pub interval_of : Option ServiceMonitorSpec → String
interval_of none = "30s"
interval_of (some m) = if not (m.interval == "") then m.interval else "30s"

unfoldable pub generate_service_monitor : Owner → DataPrepperPipelineSpec → ServiceMonitor
generate_service_monitor owner spec = record {
  meta = meta_of owner owner.name;
  match_labels = selector_labels owner.name;
  port = "metrics";
  path = "/metrics/prometheus";
  interval = interval_of spec.service_monitor;
}

unfoldable pub generate_hpa : Owner → (min_replicas max_replicas target_cpu : ℤ) → Hpa
generate_hpa owner min_replicas max_replicas target_cpu = record {
  meta = meta_of owner owner.name;
  target = owner.name;
  min_replicas = min_replicas;
  max_replicas = max_replicas;
  target_cpu = target_cpu;
}

-- `replicas - 1` is an int32.
unfoldable pub generate_pdb : Owner → (replicas : ℤ) → Pdb
generate_pdb owner replicas = record {
  meta = meta_of owner owner.name;
  min_available = max_ℤ (pos 1) (to_int32 (replicas -ℤ pos 1));
  match_labels = selector_labels owner.name;
}
