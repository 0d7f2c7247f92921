-- ===== src/Discovery/Cycle.antt =====
-- What a reconcile of a discovery reports: buildDiscoveryStatus, the rollout conditions and the
-- requeue strategy of Reconcile in datapreppersourcediscovery_controller.go.
pub mod Laws
use dataprepper_operator.Base.{
  ℕ, zero, suc, String, ◌<>◌, Bool, true, false, ◌&&◌, not, if◌then◌else◌, ltb, leb, List, [], ◌∷◌,
  length,
}
use dataprepper_operator.Base.Int.{ℤ, pos, to_int32}
use dataprepper_operator.Discovery.Names.{sanitize_name}
use dataprepper_operator.Discovery.Policy.{staged_rollout_requeue}
use dataprepper_operator.Discovery.Sources.{DiscoveredSource, Metadata, topic, bucket_prefix}
use dataprepper_operator.Discovery.Rollout.{ReconcileResult}

pub data DiscoveryPhase : Type 0 where
  running error idle : DiscoveryPhase

pub record DiscoveredSourceStatus : Type 0 where
  pub name : String
  pub partitions : ℤ
  pub pipeline_ref : String
  pub status : String

-- A condition, without its message and its times.
pub record Condition : Type 0 where
  pub type : String
  pub status : Bool
  pub reason : String

pub record DiscoveryStatus : Type 0 where
  pub phase : DiscoveryPhase
  pub discovered_sources : ℤ
  pub sources : List DiscoveredSourceStatus
  pub ready : Condition

abbrev partitions_of : Metadata → ℤ
partitions_of (topic n) = n
partitions_of (bucket_prefix b p r q) = pos 0

unfoldable pub source_statuses :
    (owner : String) → List DiscoveredSource → List DiscoveredSourceStatus
source_statuses owner [] = []
source_statuses owner (s ∷ ss) =
    record {
      name = s.name;
      partitions = partitions_of s.metadata;
      pipeline_ref = sanitize_name (owner <> "-" <> s.name);
      status = "Active";
    }
    ∷ source_statuses owner ss

abbrev ready_condition : DiscoveryPhase → Condition
ready_condition DiscoveryPhase.error = record {
  type = "Ready";
  status = false;
  reason = "DiscoveryFailed";
}
ready_condition _ = record { type = "Ready"; status = true; reason = "DiscoverySucceeded" }

unfoldable pub build_discovery_status :
    (owner : String) (phase : DiscoveryPhase) → List DiscoveredSource → DiscoveryStatus
unfolding source_statuses
build_discovery_status owner phase sources = record {
  phase = phase;
  discovered_sources = to_int32 (pos (length sources));
  sources = source_statuses owner sources;
  ready = ready_condition phase;
}

unfoldable pub rollout_conditions : ReconcileResult → Condition × Condition
rollout_conditions res = (
  if res.health_check_fail
      then record { type = "StagedRolloutPaused"; status = true; reason = "HealthCheckFailed" }
      else record { type = "StagedRolloutPaused"; status = false; reason = "Healthy" },
  if ltb 0 res.pending_updates
      then record { type = "StagedRolloutInProgress"; status = true; reason = "Updating" }
      else record { type = "StagedRolloutInProgress"; status = false; reason = "Complete" },
)

-- One second.
abbrev pub creation_requeue : ℤ
creation_requeue = pos 1000000000

unfoldable pub requeue_after : (limit sources : ℕ) (poll_interval : ℤ) → ReconcileResult → ℤ
requeue_after limit sources poll_interval res =
    if leb limit res.created && ltb res.created sources
    then creation_requeue
    else if ltb 0 res.pending_updates
    then staged_rollout_requeue
    else poll_interval
