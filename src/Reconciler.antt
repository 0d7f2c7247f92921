-- ===== src/Reconciler.antt =====
-- Decisions of the pipeline reconciler: calculateScaling, calculateKafkaScaling and updateStatus of
-- internal/controller/dataprepperpipeline_controller.go, scalingBounds of
-- internal/controller/helpers.go. Reading the secret, connecting to Kafka and asking for the
-- partitions is the parameter `count_partitions`, `none` where there is no client factory.
pub mod Laws
pub mod Resources
pub mod Hash
pub mod Planning
pub mod Cycle
pub mod Triggers
use dataprepper_operator.Base.{
  String, Bool, true, false, ◌||◌, ◌==◌, string_eq, if◌then◌else◌, Option, none, some, List, [],
  ◌∷◌, is_set,
}
use dataprepper_operator.Base.Int.{ℤ, pos, negsuc, ltb_ℤ, ◌*ℤ◌, to_int32, int_eq}
use dataprepper_operator.Base.Result.{Result, ok, err}
use dataprepper_operator.Api.Pipeline.{
  KafkaSourceSpec, PipelineDefinition, ScalingSpec, DataPrepperPipelineSpec, KafkaStatus,
  PipelinePhase, scaling_mode_manual,
}
use dataprepper_operator.Scaler.{Scaling, ScalerError, calculate_static, calculate_kafka}

abbrev pub or_number : Option ℤ → ℤ → ℤ
or_number none default = default
or_number (some n) default = n

abbrev pub min_replicas_of : Option ScalingSpec → ℤ
min_replicas_of none = pos 1
min_replicas_of (some s) = or_number s.min_replicas (pos 1)

abbrev pub max_replicas_of : Option ScalingSpec → ℤ
max_replicas_of none = pos 10
max_replicas_of (some s) = or_number s.max_replicas (pos 10)

pub data ScalingError : Type 0 where
  kafka_unavailable : String → ScalingError
  bad_partitions : ScalerError → ScalingError

-- What calculateScaling returns, and the status that it sets.
pub record Decision : Type 0 where
  pub replicas : ℤ
  pub topic_workers : ℤ
  pub use_hpa : Bool
  pub error : Option ScalingError
  pub kafka : Option KafkaStatus

abbrev pub without_kafka : ℤ → ℤ → Bool → Option ScalingError → Decision
without_kafka replicas workers hpa error = record {
  replicas = replicas;
  topic_workers = workers;
  use_hpa = hpa;
  error = error;
  kafka = none;
}

unfoldable pub static_decision : ℤ → Decision
static_decision n =
    let r = calculate_static n in without_kafka r.replicas r.topic_workers false none

abbrev pub is_manual : Option ScalingSpec → Bool
is_manual none = true
is_manual (some s) = s.mode == "" || s.mode == scaling_mode_manual

abbrev pub fixed_replicas_of : Option ScalingSpec → ℤ
fixed_replicas_of none = pos 1
fixed_replicas_of (some s) = or_number s.fixed_replicas (pos 1)

-- The first Kafka source.
unfoldable pub first_kafka : List PipelineDefinition → Option KafkaSourceSpec
first_kafka [] = none
first_kafka (p ∷ ps) =
    let rest = first_kafka ps in elim p.source.kafka [ some k ↦ some k | none ↦ rest ]

unfoldable pub any_s3 : List PipelineDefinition → Bool
any_s3 [] = false
any_s3 (p ∷ ps) = is_set p.source.s3 || any_s3 ps

module _ (int32_of_inf : ℤ) (count_partitions : Option (KafkaSourceSpec → Result String ℤ)) where
  abbrev pub of_result : (lo partitions : ℤ) → Result ScalerError Scaling → Decision
  of_result lo partitions (err e) = without_kafka lo (pos 0) false (some (bad_partitions e))
  of_result lo partitions (ok r) = record {
    replicas = r.replicas;
    topic_workers = r.topic_workers;
    use_hpa = false;
    error = none;
    kafka = some (record {
      topic_partitions = partitions;
      workers_per_pod = r.topic_workers;
      total_consumers = to_int32 (r.replicas *ℤ r.topic_workers);
    });
  }

  abbrev pub of_partitions : (lo hi : ℤ) → Result String ℤ → Decision
  of_partitions lo hi (err e) = without_kafka lo (pos 0) false (some (kafka_unavailable e))
  of_partitions lo hi (ok partitions) =
      of_result lo partitions (calculate_kafka int32_of_inf partitions hi lo)

  unfoldable pub calculate_kafka_scaling : KafkaSourceSpec → (lo hi : ℤ) → Decision
  calculate_kafka_scaling k lo hi = elim count_partitions [
    | none ↦ without_kafka lo (pos 0) false none
    | some count ↦ of_partitions lo hi (count k)
  ]

  -- The part for the automatic mode.
  unfoldable pub auto_decision : List PipelineDefinition → (lo hi : ℤ) → Decision
  unfolding static_decision calculate_kafka_scaling first_kafka any_s3
  auto_decision ps lo hi = elim (first_kafka ps) [
    | some k ↦ calculate_kafka_scaling k lo hi
    | none ↦ if any_s3 ps then static_decision lo else without_kafka lo (pos 0) true none
  ]

  unfoldable pub calculate_scaling : DataPrepperPipelineSpec → Decision
  unfolding static_decision auto_decision
  calculate_scaling spec =
      if is_manual spec.scaling
      then static_decision (fixed_replicas_of spec.scaling)
      else auto_decision spec.pipelines (min_replicas_of spec.scaling)
          (max_replicas_of spec.scaling)

-- The status that updateStatus writes, with the Ready condition and the delay of the next run.
pub record StatusUpdate : Type 0 where
  pub phase : PipelinePhase
  pub replicas : ℤ
  pub ready_replicas : ℤ
  pub ready : Bool
  pub reason : String
  pub requeue_after : ℤ

abbrev pub phase_of_replicas : (replicas ready : ℤ) → PipelinePhase
phase_of_replicas replicas ready =
    if replicas == pos 0
    then PipelinePhase.pending
    else if ready == pos 0
    then PipelinePhase.pending
    else if ltb_ℤ ready replicas
    then PipelinePhase.degraded
    else PipelinePhase.running

abbrev pub phase_of : PipelinePhase → (replicas ready : ℤ) → PipelinePhase
phase_of PipelinePhase.error replicas ready = PipelinePhase.error
phase_of _ replicas ready = phase_of_replicas replicas ready

abbrev pub ready_reason : PipelinePhase → Bool × String
ready_reason PipelinePhase.error = (false, "ValidationFailed")
ready_reason PipelinePhase.pending = (false, "DeploymentNotReady")
ready_reason PipelinePhase.degraded = (false, "PartiallyReady")
ready_reason _ = (true, "Reconciled")

-- 30 seconds for the phases that are not final, in nanoseconds.
abbrev pub requeue_of : PipelinePhase → ℤ
requeue_of PipelinePhase.pending = pos 30000000000
requeue_of PipelinePhase.degraded = pos 30000000000
requeue_of _ = pos 0

abbrev pub update_of : PipelinePhase → (replicas ready : ℤ) → StatusUpdate
update_of phase replicas ready = record {
  phase = phase;
  replicas = replicas;
  ready_replicas = ready;
  ready = (ready_reason phase).0;
  reason = (ready_reason phase).1;
  requeue_after = requeue_of phase;
}

-- `old` is the replicas and ready replicas of the status so far, `deployment` those of the
-- Deployment if it can be read.
unfoldable pub update_status :
    (error_phase : PipelinePhase) (deployment : Option (ℤ × ℤ)) (old : ℤ × ℤ) → StatusUpdate
update_status error_phase none old = update_of (phase_of error_phase old.0 old.1) old.0 old.1
update_status error_phase (some now) old = update_of (phase_of error_phase now.0 now.1) now.0 now.1
