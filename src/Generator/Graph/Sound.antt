-- ===== src/Generator/Graph/Sound.antt =====
-- Generation on admissible definitions: it succeeds, and states their graph.
use dataprepper_operator.Base.{
  ◌≡◌, refl, ◌∙◌, sym, ap, String, false, Option, none, some, List, [], ◌∷◌, ◌++◌, string_eq,
  contains, ◌∈◌, arith, All, Distinct, Option-cases, inl, inr,
}
use dataprepper_operator.Base.Dict.{Dict}
use dataprepper_operator.Base.Int.{ℤ}
use dataprepper_operator.Base.Result.{ok}
use dataprepper_operator.Api.Json.{num, Value, arr, obj, Fields, end, put, get, values, field_names}
use dataprepper_operator.Api.Common.{BufferSpec}
use dataprepper_operator.Api.Pipeline.{DataPrepperPipelineSpec, PipelineDefinition}
use dataprepper_operator.Api.Webhook.{Reader, validate_pipeline, sink_names, graph_def, graph_defs}
use dataprepper_operator.Api.Webhook.Accepts.{
  validate_pipeline-none_iff, IsDefinition, definition_names,
}
use dataprepper_operator.Generator.Source.{put_if, is_positive, build_buffer}
use dataprepper_operator.Generator.PipelineConfig.{
  put_workers, build_processors, generate_definition, generate_from, generate_pipeline_config,
  put_buffer, put_routes, put_processors,
}
use dataprepper_operator.Generator.Graph.Read.{
  connector_name, connector_names, or_empty, read_definition, read_graph, get-put, read_graph-put,
  field_names-put,
}
use mathlib.Core.List.{append-nil, append_assoc}
use dataprepper_operator.Generator.Graph.Parts.{source_name, build_source-total, build_sinks-total}

module _ (unmarshal : String → Option Value) where
  -- Every processor is a JSON text.
  abbrev pub Parses : List String → Type 0
  Parses [] = Unit
  Parses (raw ∷ raws) = ((v : Value) × (unmarshal raw ≡ some v)) × Parses raws

  build_processors-total :
      (raws : List String)
      → Parses raws
      → (vs : List Value) × (build_processors unmarshal raws ≡ some vs)
  unfolding build_processors
  build_processors-total [] h = ([], refl)
  build_processors-total (raw ∷ raws) h =
      let (v, parsed) = h.0 in
      let (vs, rest) = build_processors-total raws h.1 in (v ∷ vs, ground arith)

  get_source-put_buffer :
      (b : Option BufferSpec) (pc : Fields) → get "source" (put_buffer b pc) ≡ get "source" pc
  unfolding put_buffer string_eq
  get_source-put_buffer none pc = refl
  get_source-put_buffer (some b) pc = elim (Option-cases (build_buffer b)) [
    | inl e ↦ ground arith
    | inr (v, e) ↦ ground (arith, get-put "buffer" "source" v pc)
  ]

  get_source-put_processors :
      (vs : List Value) (pc : Fields)
      → get "source" (put_processors unmarshal vs pc) ≡ get "source" pc
  unfolding put_processors string_eq
  get_source-put_processors [] pc = refl
  get_source-put_processors (v ∷ vs) pc = get-put "processor" "source" _ pc

  get_source-put_routes :
      (rs : List (Dict String)) (pc : Fields) → get "source" (put_routes rs pc) ≡ get "source" pc
  unfolding put_routes string_eq
  get_source-put_routes [] pc = refl
  get_source-put_routes (r ∷ rs) pc = get-put "route" "source" _ pc

  -- The entry that is generated for a definition.
  entry : PipelineDefinition → ℤ → (source : Value) (procs sinks : List Value) → Fields
  entry p tw source procs sinks = put "sink" (arr (values sinks)) (
      put_routes p.routes (
        put_processors unmarshal procs (
          put_buffer p.buffer (
            put "source" source
              (put_if (is_positive p.delay) "delay" (num p.delay) (put_workers p tw end))))))

  get_source-entry :
      (p : PipelineDefinition) (tw : ℤ) (source : Value) (procs sinks : List Value)
      → get "source" (entry p tw source procs sinks) ≡ some source
  unfolding entry string_eq
  get_source-entry p tw source procs sinks =
      get-put "sink" "source" _ _
      ∙ get_source-put_routes p.routes _
      ∙ get_source-put_processors procs _
      ∙ get_source-put_buffer p.buffer _
      ∙ get-put "source" "source" source _

  get_sink-entry :
      (p : PipelineDefinition) (tw : ℤ) (source : Value) (procs sinks : List Value)
      → get "sink" (entry p tw source procs sinks) ≡ some (arr (values sinks))
  unfolding entry string_eq
  get_sink-entry p tw source procs sinks = get-put "sink" "sink" _ _

  read-entry :
      (tw : ℤ) (p : PipelineDefinition) (source : Value) (procs sinks : List Value)
      → or_empty (connector_name source) ≡ source_name p.source
      → connector_names (values sinks) ≡ sink_names p.sink
      → read_definition p.name (obj (entry p tw source procs sinks)) ≡ graph_def p
  unfolding graph_def
  read-entry tw p source procs sinks a b =
      rw (get_source-entry p tw source procs sinks, get_sink-entry p tw source procs sinks, a, b)
        refl

  pub generate_definition-total :
      (tw : ℤ) (p : PipelineDefinition)
      → IsDefinition p
      → Parses p.processors
      → (pc : Fields) × (generate_definition unmarshal tw p ≡ ok pc)
        × (read_definition p.name (obj pc) ≡ graph_def p)
  unfolding generate_definition entry graph_def
  generate_definition-total tw p h parsed =
      let (source, built, source_named) = build_source-total tw h.one_source in
      let (procs, procs_built) = build_processors-total p.processors parsed in
      let (sinks, sinks_built, sinks_named) = build_sinks-total p.sink h.one_sink_each in
      (
        entry p tw source procs sinks,
        rw (built, procs_built, sinks_built) refl,
        read-entry tw p source procs sinks source_named sinks_named,
      )

  abbrev pub AllParse : List PipelineDefinition → Type 0
  AllParse [] = Unit
  AllParse (p ∷ ps) = Parses p.processors × AllParse ps

  step :
      (config : Fields) (p : PipelineDefinition) (ps : List PipelineDefinition) (pc : Fields)
      → contains (field_names config) p.name ≡ false
      → read_definition p.name (obj pc) ≡ graph_def p
      → read_graph (put p.name (obj pc) config) ++ graph_defs ps
        ≡ read_graph config ++ graph_def p ∷ graph_defs ps
  step config p ps pc fresh entry_read =
      ap (λ g. g ++ graph_defs ps) (read_graph-put p.name (obj pc) config fresh)
      ∙ append_assoc (read_graph config) (read_definition p.name (obj pc) ∷ []) (graph_defs ps)
      ∙ ap (λ e. read_graph config ++ e ∷ graph_defs ps) entry_read

  pub generate_from-total :
      (tw : ℤ) (ps : List PipelineDefinition) (config : Fields)
      → All IsDefinition ps
      → AllParse ps
      → Distinct (definition_names ps)
      → ((n : String) → n ∈ definition_names ps → contains (field_names config) n ≡ false)
      → (file : Fields) × (generate_from unmarshal tw config ps ≡ ok file)
        × (read_graph file ≡ read_graph config ++ graph_defs ps)
  unfolding generate_from graph_defs
  generate_from-total tw [] config h parsed d new =
      (config, refl, sym (append-nil (read_graph config)))
  generate_from-total tw (p ∷ ps) config h parsed d new =
      let (pc, built, entry_read) = generate_definition-total tw p h.0 parsed.0 in
      let fresh : contains (field_names config) p.name ≡ false = new p.name (ground arith) in
      let (file, rest, read) =
        generate_from-total tw ps (put p.name (obj pc) config) h.1 parsed.1 d.1 (λ n i.
          field_names-put p.name n (obj pc) config (new n (ground arith)) fresh (ground arith)) in
      (file, rw (built) rest, read ∙ step config p ps pc fresh entry_read)

-- A pipeline that the webhook accepts, with processors that are JSON texts, always has a
-- configuration file, and the connections that the file states are those that were validated.
pub generate_pipeline_config-read_graph :
    (unmarshal : String → Option Value) (reader : Reader) (name namespace : String)
    (spec : DataPrepperPipelineSpec) (topic_workers : ℤ)
    → validate_pipeline reader name namespace spec ≡ none
    → AllParse unmarshal spec.pipelines
    → (file : Fields) × (generate_pipeline_config unmarshal spec.pipelines topic_workers ≡ ok file)
      × (read_graph file ≡ graph_defs spec.pipelines)
unfolding generate_pipeline_config
generate_pipeline_config-read_graph unmarshal reader name namespace spec tw h parsed =
    let accepted = (validate_pipeline-none_iff reader name namespace spec).0 h in
    generate_from-total unmarshal tw spec.pipelines end accepted.definitions parsed
      accepted.distinct (λ n i. refl)
