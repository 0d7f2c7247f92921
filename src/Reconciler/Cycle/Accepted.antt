-- ===== src/Reconciler/Cycle/Accepted.antt =====
-- From the webhook to the reconciler: what the webhook accepts has a plan.
use dataprepper_operator.Base.{
  ◌≡◌, refl, sym, subst, String, ◌&&◌, Option, none, some, List, [], ◌∷◌, All, Distinct, string_eq,
}
use dataprepper_operator.Base.Int.{pos, ltb_ℤ}
use dataprepper_operator.Base.Result.{ok}
use dataprepper_operator.Api.Json.{Value, Fields, end}
use dataprepper_operator.Api.Defaults.{DataPrepperDefaultsSpec}
use dataprepper_operator.Api.Pipeline.{PipelineDefinition, DataPrepperPipelineSpec}
use dataprepper_operator.Api.Webhook.{Reader, validate_pipeline, graph_defs}
use dataprepper_operator.Api.Webhook.Accepts.{
  IsDefinition, validate_pipeline-none_iff, definition_names,
}
use dataprepper_operator.Validation.{validate_graph}
use dataprepper_operator.Defaults.{merge_spec}
use dataprepper_operator.Defaults.Keeps.{merge_spec-IsDefinition}
use dataprepper_operator.Defaults.Laws.{merge_spec-validate_graph}
use dataprepper_operator.PeerForwarder.{needs_forwarding}
use dataprepper_operator.Generator.Helpers.{
  as_map, json_to_map, extract_processors, extract_processor_maps,
}
use dataprepper_operator.Generator.PipelineConfig.{generate_pipeline_config}
use dataprepper_operator.Generator.DpConfig.Laws.{IsObject, HasRawObject, generate_dp_config-total}
use dataprepper_operator.Generator.Graph.Sound.{Parses, AllParse, generate_from-total}
use dataprepper_operator.Workload.{Owner}
use dataprepper_operator.Reconciler.{calculate_scaling}
use dataprepper_operator.Reconciler.Planning.{
  Client, Libraries, Plan, plan_of, make_plan, replicas_of, topic_workers_of,
}

module _ (unmarshal : String → Option Value) where
  abbrev pub AreObjects : List String → Type 0
  AreObjects raws = All (IsObject unmarshal) raws

  extract_processors-total :
      (name : String) (raws : List String)
      → AreObjects raws
      → (ms : List Fields) × (extract_processors unmarshal name raws ≡ ok ms)
  unfolding extract_processors
  extract_processors-total name [] h = ([], refl)
  extract_processors-total name (raw ∷ raws) h =
      let (m, parsed) = h.0 in
      let (ms, rest) = extract_processors-total name raws h.1 in
      (m ∷ ms, rw (extract_processors, parsed, rest) refl)

  extract_processor_maps-total :
      (ps : List PipelineDefinition)
      → All (λ p. AreObjects p.processors) ps
      → (maps : List (List Fields)) × (extract_processor_maps unmarshal ps ≡ ok maps)
  unfolding extract_processor_maps
  extract_processor_maps-total [] h = ([], refl)
  extract_processor_maps-total (p ∷ ps) h =
      let (ms, here) = extract_processors-total p.name p.processors h.0 in
      let (maps, rest) = extract_processor_maps-total ps h.1 in (ms ∷ maps, rw (here, rest) refl)

  as_map-some : (o : Option Value) (fs : Fields) → as_map o ≡ some fs → (v : Value) × (o ≡ some v)
  as_map-some none fs h = cc
  as_map-some (some v) fs h = (v, refl)

  AreObjects-Parses : (raws : List String) → AreObjects raws → Parses unmarshal raws
  unfolding json_to_map
  AreObjects-Parses [] h = tt
  AreObjects-Parses (raw ∷ raws) h =
      (as_map-some (unmarshal raw) h.0.0 h.0.1, AreObjects-Parses raws h.1)

  AreObjects-AllParse :
      (ps : List PipelineDefinition) → All (λ p. AreObjects p.processors) ps → AllParse unmarshal ps
  AreObjects-AllParse [] h = tt
  AreObjects-AllParse (p ∷ ps) h = (AreObjects-Parses p.processors h.0, AreObjects-AllParse ps h.1)

module _ {Cluster : Type 0} (client : Client Cluster) (libraries : Libraries) where
  -- The YAML library prints every object.
  abbrev pub IsPrinter : Type 0
  IsPrinter = (fs : Fields) → (text : String) × (libraries.to_yaml fs ≡ ok text)

  planned :
      (owner : Owner) (spec : DataPrepperPipelineSpec) (c : Cluster)
      → IsPrinter
      → All IsDefinition spec.pipelines
      → Distinct (definition_names spec.pipelines)
      → All (λ p. AreObjects libraries.unmarshal p.processors) spec.pipelines
      → HasRawObject libraries.unmarshal spec.data_prepper_config
      → (plan : Plan) × (make_plan client libraries owner spec c ≡ ok plan)
  unfolding make_plan generate_pipeline_config
  planned owner spec c prints definitions distinct objects raw =
      let d = calculate_scaling libraries.int32_of_inf (client.count_partitions c) spec in
      let (maps, extracted) =
        extract_processor_maps-total libraries.unmarshal spec.pipelines objects in
      let peer = needs_forwarding maps && ltb_ℤ (pos 1) (replicas_of d) in
      let (file, generated, read) =
        generate_from-total libraries.unmarshal (topic_workers_of d) spec.pipelines end definitions
          (AreObjects-AllParse libraries.unmarshal spec.pipelines objects) distinct (λ n i. refl) in
      let (text, printed) = prints file in
      let (dp, configured) =
        generate_dp_config-total libraries.unmarshal spec peer owner.name owner.namespace raw in
      let (dp_text, dp_printed) = prints dp in
      (
        plan_of client libraries spec c d peer text dp_text,
        rw (make_plan, extracted, generated, printed, configured, dp_printed) refl,
      )

  -- A pipeline that the webhook accepts, whose processors are JSON objects, and whose raw Data Prepper
  -- configuration after the merge is a JSON object if there is one, whatever the defaults and the
  -- state of the cluster: its graph is valid after the merge, and no step before the first write of a
  -- run fails, so that there is a plan. The YAML printer prints every object.
  pub validate_pipeline-make_plan :
      (reader : Reader) (name namespace : String) (defaults : Option DataPrepperDefaultsSpec)
      (s : DataPrepperPipelineSpec) (owner : Owner) (c : Cluster)
      → IsPrinter
      → validate_pipeline reader name namespace s ≡ none
      → All (λ p. AreObjects libraries.unmarshal p.processors) s.pipelines
      → HasRawObject libraries.unmarshal (merge_spec defaults s).data_prepper_config
      → (validate_graph (graph_defs (merge_spec defaults s).pipelines) ≡ none)
        × (plan : Plan) × (make_plan client libraries owner (merge_spec defaults s) c ≡ ok plan)
  validate_pipeline-make_plan reader name namespace defaults s owner c prints accepted objects raw =
      let admissible = (validate_pipeline-none_iff reader name namespace s).0 accepted in
      let (definitions, names, merged_objects) =
        merge_spec-IsDefinition defaults s (AreObjects libraries.unmarshal) admissible.definitions
          objects in
      let (plan, made) =
        planned owner (merge_spec defaults s) c prints definitions
          (subst (λ (ns : List String). Distinct ns) (sym names) admissible.distinct) merged_objects
          raw in
      (merge_spec-validate_graph reader name namespace defaults s accepted, plan, made)
