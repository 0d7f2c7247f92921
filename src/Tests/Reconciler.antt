-- ===== src/Tests/Reconciler.antt =====
-- The scaling decision and the status at concrete inputs.
use dataprepper_operator.Base.{
  ◌≡◌, ◌≢◌, ◌↔◌, ◌⊎◌, refl, string_eq, true, false, String, Option, none, some,
}
use dataprepper_operator.Base.Int.{ℤ, pos, ltb_ℤ, int_eq}
use dataprepper_operator.Base.Result.{Result, ok}
use dataprepper_operator.Api.Pipeline.{
  DataPrepperPipelineSpec, KafkaSourceSpec, PipelinePhase, scaling_mode_auto,
}
use dataprepper_operator.Reconciler.{calculate_scaling, update_status}
use dataprepper_operator.Reconciler.Laws.{update_status_lem}
use dataprepper_operator.Scaler.{calculate_kafka}
use dataprepper_operator.Tests.Samples.{two_pipelines}

abbrev automatic : DataPrepperPipelineSpec
automatic = record two_pipelines {
  scaling = some (record {
    mode = scaling_mode_auto;
    max_replicas = some (pos 3);
    min_replicas = some (pos 1);
    fixed_replicas = none;
  });
}

-- Every topic has seven partitions.
abbrev seven : Option (KafkaSourceSpec → Result String ℤ)
seven = some (λ k. ok (pos 7))

three_replicas : (calculate_scaling (pos 0) seven automatic).replicas ≡ pos 3
unfolding calculate_scaling string_eq calculate_kafka
three_replicas = refl

update_status_lem_example :
    (let u = update_status PipelinePhase.unset (some (pos 3, pos 2)) (pos 0, pos 0) in
      ((u.ready ≡ true) ↔ (
        (PipelinePhase.unset ≢ PipelinePhase.error)
        × (pos 3 ≢ pos 0)
        × (pos 2 ≢ pos 0)
        × (ltb_ℤ (pos 2) (pos 3) ≡ false)))
      × ((u.requeue_after ≡ pos 0)
          ↔ ((PipelinePhase.unset ≡ PipelinePhase.error) ⊎ (u.ready ≡ true))))
update_status_lem_example = update_status_lem PipelinePhase.unset (pos 3) (pos 2) (pos 0, pos 0)
