-- ===== src/Reconciler/Cycle/Plans.antt =====
-- What a run computes before it writes.
use dataprepper_operator.Base.{
  ◌≡◌, refl, sym, ◌∙◌, ap, String, true, false, ◌&&◌, Option, none, List, Option-cases, inl, inr,
  if_ind,
}
use dataprepper_operator.Base.Int.{ℤ, pos, ltb_ℤ}
use dataprepper_operator.Base.Result.{Result, ok, err, bind-ok}
use dataprepper_operator.Api.Json.{Fields}
use dataprepper_operator.Api.Pipeline.{KafkaSourceSpec, PipelineDefinition, DataPrepperPipelineSpec}
use dataprepper_operator.PeerForwarder.{needs_forwarding}
use dataprepper_operator.Generator.Helpers.{extract_processor_maps}
use dataprepper_operator.Generator.PipelineConfig.{generate_pipeline_config}
use dataprepper_operator.Generator.DpConfig.{generate_dp_config}
use dataprepper_operator.Workload.{Owner}
use dataprepper_operator.Scaler.{Scaling, ScalerError, calculate_kafka}
use dataprepper_operator.Reconciler.{
  Decision, calculate_scaling, auto_decision, static_decision, without_kafka, of_result,
  of_partitions, calculate_kafka_scaling, first_kafka, any_s3, is_manual, min_replicas_of,
  max_replicas_of, fixed_replicas_of,
}
use dataprepper_operator.Reconciler.Planning.{
  Client, Libraries, Plan, ReconcileError, extract_failed, pipeline_config_failed, dp_config_failed,
  marshal_failed, plan_of, make_plan, map_err, replicas_of, topic_workers_of,
}

map_err-ok : {E F A : Type 0} (f : E → F) (r : Result E A) (a : A) → map_err f r ≡ ok a → r ≡ ok a
map_err-ok f (err e) a h = cc
map_err-ok f (ok x) a h = cc

plan_fields :
    (made plan : Plan) → Path (Result ReconcileError Plan) (ok made) (ok plan) → plan ≡ made
plan_fields made plan h = cc

-- The autoscaler is used for a decision of this form only.
abbrev pub IsStart : (lo : ℤ) → Decision → Type 0
IsStart lo d = d.use_hpa ≡ true → d ≡ without_kafka lo (pos 0) true none

module _ (inf : ℤ) (count : Option (KafkaSourceSpec → Result String ℤ)) where
  of_result-IsStart :
      (lo n : ℤ) (r : Result ScalerError Scaling) → (of_result inf count lo n r).use_hpa ≡ false
  of_result-IsStart lo n (err e) = refl
  of_result-IsStart lo n (ok r) = refl

  of_partitions-IsStart :
      (lo hi : ℤ) (r : Result String ℤ) → (of_partitions inf count lo hi r).use_hpa ≡ false
  of_partitions-IsStart lo hi (err e) = refl
  of_partitions-IsStart lo hi (ok n) = of_result-IsStart lo n (calculate_kafka inf n hi lo)

  static-IsStart : (lo n : ℤ) → IsStart lo (static_decision n)
  unfolding static_decision
  static-IsStart lo n h = cc

  kafka-IsStart :
      (k : KafkaSourceSpec) (lo hi : ℤ)
      → (calculate_kafka_scaling inf count k lo hi).use_hpa ≡ false
  unfolding calculate_kafka_scaling
  kafka-IsStart k lo hi = elim (Option-cases count) [
    | inl e ↦ rw (calculate_kafka_scaling, e) refl
    | inr (f, e) ↦ rw (calculate_kafka_scaling, e) (of_partitions-IsStart lo hi (f k))
  ]

  auto-IsStart :
      (ps : List PipelineDefinition) (lo hi : ℤ) → IsStart lo (auto_decision inf count ps lo hi)
  unfolding auto_decision
  auto-IsStart ps lo hi = elim (Option-cases (first_kafka ps)) [
    | inl e ↦
        rw (auto_decision, e)
          (if_ind (IsStart lo) (any_s3 ps) _ _ (λ s. static-IsStart lo lo) (λ s h. refl))
    | inr (k, e) ↦ rw (auto_decision, e) (λ h. cc (h, kafka-IsStart k lo hi))
  ]

  pub calculate_scaling-IsStart :
      (spec : DataPrepperPipelineSpec)
      → IsStart (min_replicas_of spec.scaling) (calculate_scaling inf count spec)
  unfolding calculate_scaling
  calculate_scaling-IsStart spec =
      if_ind (IsStart (min_replicas_of spec.scaling)) (is_manual spec.scaling) _ _
        (λ e. static-IsStart (min_replicas_of spec.scaling) (fixed_replicas_of spec.scaling))
        (λ e.
          auto-IsStart spec.pipelines (min_replicas_of spec.scaling) (max_replicas_of spec.scaling))

module _ {Cluster : Type 0} (client : Client Cluster) (libraries : Libraries) where
  pub make_plan-coherent :
      (owner : Owner) (spec : DataPrepperPipelineSpec) (c : Cluster) (plan : Plan)
      → make_plan client libraries owner spec c ≡ ok plan
      → (let d = calculate_scaling libraries.int32_of_inf (client.count_partitions c) spec in
          (plan.scaling ≡ d)
          × (plan.replicas ≡ replicas_of d)
          × ((maps : List (List Fields)) × (extract_processor_maps libraries.unmarshal
                  spec.pipelines
                ≡ ok maps)
              × (plan.needs_peer_forwarder ≡ (needs_forwarding maps && ltb_ℤ (pos 1) plan.replicas))
              × ((dp : Fields) × (generate_dp_config libraries.unmarshal spec
                      plan.needs_peer_forwarder owner.name owner.namespace
                    ≡ ok dp)
                  × (libraries.to_yaml dp ≡ ok plan.dp_config_yaml))))
  unfolding make_plan
  make_plan-coherent owner spec c plan h =
      let (maps, extracted, h) =
        bind-ok (map_err extract_failed (extract_processor_maps libraries.unmarshal spec.pipelines))
          _ plan h in
      let d = calculate_scaling libraries.int32_of_inf (client.count_partitions c) spec in
      let peer = needs_forwarding maps && ltb_ℤ (pos 1) (replicas_of d) in
      let (pipelines, generated, h) =
        bind-ok
          (map_err pipeline_config_failed
            (generate_pipeline_config libraries.unmarshal spec.pipelines (topic_workers_of d)))
          _ plan h in
      let (yaml, printed, h) =
        bind-ok (map_err (marshal_failed "pipeline config") (libraries.to_yaml pipelines)) _ plan
          h in
      let (dp, configured, h) =
        bind-ok
          (map_err dp_config_failed
            (generate_dp_config libraries.unmarshal spec peer owner.name owner.namespace))
          _ plan h in
      let (dp_yaml, dp_printed, h) =
        bind-ok (map_err (marshal_failed "dp config") (libraries.to_yaml dp)) _ plan h in
      let same = plan_fields (plan_of client libraries spec c d peer yaml dp_yaml) plan h in
      let peers : plan.needs_peer_forwarder ≡ peer = ap (λ x. x.needs_peer_forwarder) same in
      (
        ap (λ x. x.scaling) same,
        ap (λ x. x.replicas) same,
        (
          maps,
          map_err-ok extract_failed (extract_processor_maps libraries.unmarshal spec.pipelines) maps
              extracted,
          peers
              ∙ ap (λ n. needs_forwarding maps && ltb_ℤ (pos 1) n)
                  (sym (ap (λ x. x.replicas) same)),
          (
            dp,
            ap (λ b. generate_dp_config libraries.unmarshal spec b owner.name owner.namespace) peers
                ∙ map_err-ok dp_config_failed
                    (generate_dp_config libraries.unmarshal spec peer owner.name owner.namespace) dp
                    configured,
            map_err-ok (marshal_failed "dp config") (libraries.to_yaml dp) dp_yaml dp_printed
                ∙ ap ok (sym (ap (λ x. x.dp_config_yaml) same)),
          ),
        ),
      )
