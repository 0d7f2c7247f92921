-- ===== src/Reconciler/Laws.antt =====
-- Replicas are never below one, and the status says what the Deployment shows.
use dataprepper_operator.Base.{
  ◌≡◌, ◌≢◌, ◌↔◌, arith, ℕ, ◌⊎◌, ◌≤◌, ◌*◌, Bool, true, false, string_eq, some, OnSome,
}
use dataprepper_operator.Base.Int.{ℤ, pos, ltb_ℤ, ◌≤ℤ◌, int_eq}
use dataprepper_operator.Base.Result.{Result}
use dataprepper_operator.Api.Pipeline.{PipelinePhase, KafkaStatus}
use dataprepper_operator.Reconciler.{
  Decision, phase_of_replicas, ready_reason, requeue_of, update_status,
}

-- The consumers that the status reports cover the partitions.
abbrev pub Covers : Decision → KafkaStatus → Type 0
Covers d k =
    (r w p : ℕ) × (d.replicas ≡ pos r)
    × (d.topic_workers ≡ pos w)
    × (k.topic_partitions ≡ pos p)
    × (p ≤ r * w)

-- What holds of each decision with the lower bound `lo`.
pub record IsDecision (manual : Bool) (lo : ℤ) (d : Decision) : Type 0 where
  pub running : pos 1 ≤ℤ d.replicas
  pub above : manual ≡ false → lo ≤ℤ d.replicas
  pub workers : d.use_hpa ≡ true → d.topic_workers ≡ pos 0
  pub covers : OnSome (Covers d) d.kafka

phase_of_replicas_iff :
    (replicas ready : ℤ)
    → ((ready_reason (phase_of_replicas replicas ready)).0 ≡ true)
      ↔ ((replicas ≢ pos 0) × (ready ≢ pos 0) × (ltb_ℤ ready replicas ≡ false))
phase_of_replicas_iff replicas ready = ground arith

phase_of_replicas-requeue :
    (replicas ready : ℤ)
    → (requeue_of (phase_of_replicas replicas ready) ≡ pos 0)
      ↔ ((ready_reason (phase_of_replicas replicas ready)).0 ≡ true)
phase_of_replicas-requeue replicas ready = ground arith

-- With the replicas of the Deployment at hand, the pipeline is ready exactly when the cycle met no
-- error and the Deployment has replicas, of which some are ready and none are missing. A next run
-- is planned exactly when it is not ready and there is no error: after an error none is.
pub update_status_lem :
    (error_phase : PipelinePhase) (replicas ready : ℤ) (old : ℤ × ℤ)
    → (let u = update_status error_phase (some (replicas, ready)) old in
        ((u.ready ≡ true) ↔ (
          (error_phase ≢ PipelinePhase.error)
          × (replicas ≢ pos 0)
          × (ready ≢ pos 0)
          × (ltb_ℤ ready replicas ≡ false)))
        × ((u.requeue_after ≡ pos 0) ↔ ((error_phase ≡ PipelinePhase.error) ⊎ (u.ready ≡ true))))
unfolding update_status
update_status_lem PipelinePhase.error r d old = ground arith
update_status_lem PipelinePhase.unset r d old =
    ground (arith, phase_of_replicas_iff r d, phase_of_replicas-requeue r d)
update_status_lem PipelinePhase.pending r d old =
    ground (arith, phase_of_replicas_iff r d, phase_of_replicas-requeue r d)
update_status_lem PipelinePhase.running r d old =
    ground (arith, phase_of_replicas_iff r d, phase_of_replicas-requeue r d)
update_status_lem PipelinePhase.degraded r d old =
    ground (arith, phase_of_replicas_iff r d, phase_of_replicas-requeue r d)
