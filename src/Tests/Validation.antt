-- ===== src/Tests/Validation.antt =====
-- The graph check, the webhook, the merge of defaults and the scaling decision at concrete inputs.
use dataprepper_operator.Base.{ℕ, ◌≡◌, ◌≢◌, ◌↔◌, refl, string_eq, none, some}
use dataprepper_operator.Base.Int.{pos}
use dataprepper_operator.Base.Dict.{lookup, insert}
use dataprepper_operator.Base.Result.{ok}
use dataprepper_operator.Validation.{validate_graph, cycle, out_of_fuel}
use dataprepper_operator.Validation.Adjacency.{Feeds}
use dataprepper_operator.Validation.Walks.{Reach}
use dataprepper_operator.Validation.Correct.{
  IsValidGraph, validate_graph-none_iff, validate_graph-cycle, validate_graph-ne-out_of_fuel,
}
use dataprepper_operator.Api.Webhook.{validate_pipeline, graph_defs}
use dataprepper_operator.Api.Webhook.Accepts.{IsAdmissible, validate_pipeline-none_iff}
use dataprepper_operator.Defaults.{merge_spec}
use dataprepper_operator.Defaults.Laws.{
  graph_defs-merge_spec, merge_spec-validate_graph, merge_spec-image,
}
use dataprepper_operator.Defaults.Precedence.{IsMerged, merge_spec-IsMerged}
use dataprepper_operator.Scaler.{calculate_kafka}
use dataprepper_operator.Scaler.Laws.{IsPlan, calculate_kafka-IsPlan}
use dataprepper_operator.Tests.Samples.{
  chain, loop, two_pipelines, with_image, read_defaults, accepted,
}

validate_graph-chain : validate_graph chain ≡ none
unfolding validate_graph string_eq lookup insert
validate_graph-chain = refl

validate_graph-loop : validate_graph loop ≡ some (cycle "b" "a")
unfolding validate_graph string_eq lookup insert
validate_graph-loop = refl

validate_graph-none_iff_example : (validate_graph chain ≡ none) ↔ IsValidGraph chain
validate_graph-none_iff_example = validate_graph-none_iff chain

validate_graph-ne-out_of_fuel_example : validate_graph loop ≢ some out_of_fuel
validate_graph-ne-out_of_fuel_example = validate_graph-ne-out_of_fuel loop

validate_graph-cycle_example : Feeds loop "b" "a" × Reach (Feeds loop) "a" "b"
validate_graph-cycle_example = validate_graph-cycle loop "b" "a" validate_graph-loop

validate_pipeline-none_iff_example :
    (validate_pipeline (some read_defaults) "logs" "prod" two_pipelines ≡ none)
    ↔ IsAdmissible (some read_defaults) "logs" "prod" two_pipelines
validate_pipeline-none_iff_example =
    validate_pipeline-none_iff (some read_defaults) "logs" "prod" two_pipelines

merge_spec-IsMerged_example :
    IsMerged with_image two_pipelines (merge_spec (some with_image) two_pipelines)
    × (merge_spec none two_pipelines ≡ two_pipelines)
    × (merge_spec (some with_image) (merge_spec (some with_image) two_pipelines)
        ≡ merge_spec (some with_image) two_pipelines)
merge_spec-IsMerged_example = merge_spec-IsMerged with_image two_pipelines

graph_defs-merge_spec_example :
    graph_defs (merge_spec (some with_image) two_pipelines).pipelines
    ≡ graph_defs two_pipelines.pipelines
graph_defs-merge_spec_example = graph_defs-merge_spec (some with_image) two_pipelines

merge_spec-validate_graph_example :
    validate_graph (graph_defs (merge_spec (some with_image) two_pipelines).pipelines) ≡ none
merge_spec-validate_graph_example =
    merge_spec-validate_graph (some read_defaults) "logs" "prod" (some with_image) two_pipelines
      accepted

merge_spec-image_example : (merge_spec (read_defaults "prod" "default") two_pipelines).image ≢ ""
merge_spec-image_example = merge_spec-image read_defaults "logs" "prod" two_pipelines accepted

calculate_kafka_seven :
    calculate_kafka (pos 0) (pos 7) (pos 3) (pos 1)
    ≡ ok (record { replicas = pos 3; topic_workers = pos 3 })
unfolding calculate_kafka
calculate_kafka_seven = refl

calculate_kafka-IsPlan_example :
    (r w : ℕ) × (calculate_kafka (pos 0) (pos 7) (pos 3) (pos 1)
      ≡ ok (record { replicas = pos r; topic_workers = pos w }))
    × IsPlan 7 (pos 3) (pos 1) r w
calculate_kafka-IsPlan_example = calculate_kafka-IsPlan (pos 0) 6 (pos 3) 0
