-- ===== src/Generator/PipelineConfig.antt =====
-- `GeneratePipelineConfig`, internal/generator/pipeline_config.go.
use dataprepper_operator.Base.{
  String, ◌&&◌, Option, none, some, List, [], ◌∷◌, is_set, if◌then◌else◌,
}
use dataprepper_operator.Base.Dict.{Dict, copy_into}
use dataprepper_operator.Base.Int.{ℤ}
use dataprepper_operator.Base.Result.{Result, ok, err, ◌>>=◌}
use dataprepper_operator.Api.Json.{Value, num, arr, obj, Fields, end, put, values}
use dataprepper_operator.Api.Common.{BufferSpec}
use dataprepper_operator.Api.Pipeline.{PipelineDefinition}
use dataprepper_operator.Generator.Helpers.{GenerateError, bad_processor, no_source, no_sink_type}
use dataprepper_operator.Generator.Source.{put_if, texts, is_positive, build_source, build_buffer}
use dataprepper_operator.Generator.Sink.{build_sinks}

-- A missing value is the given error.
abbrev pub or_error : {A : Type 0} → GenerateError → Option A → Result GenerateError A
or_error e none = err e
or_error e (some a) = ok a

abbrev pub put_workers : PipelineDefinition → ℤ → Fields → Fields
put_workers p topic_workers pc =
    if is_positive p.workers
    then put "workers" (num p.workers) pc
    else put_if (is_set p.source.kafka && is_positive topic_workers) "workers" (num topic_workers)
        pc

unfoldable pub put_buffer : Option BufferSpec → Fields → Fields
unfolding put build_buffer
put_buffer none pc = pc
put_buffer (some b) pc = elim (build_buffer b) [ none ↦ pc | some v ↦ put "buffer" v pc ]

-- `merged` in the source, which starts empty.
merge_routes : Dict String → List (Dict String) → Dict String
unfolding copy_into
merge_routes merged [] = merged
merge_routes merged (r ∷ rs) = merge_routes (copy_into merged r) rs

unfoldable pub put_routes : List (Dict String) → Fields → Fields
unfolding put merge_routes
put_routes [] pc = pc
put_routes (r ∷ rs) pc = put "route" (obj (texts (merge_routes [] (r ∷ rs)))) pc

module _ (unmarshal : String → Option Value) where
  unfoldable pub build_processors : List String → Option (List Value)
  build_processors [] = some []
  build_processors (raw ∷ raws) =
      let rest = build_processors raws in
      elim (unmarshal raw) [
        | none ↦ none
        | some v ↦ elim rest [ none ↦ none | some vs ↦ some (v ∷ vs) ]
      ]

  unfoldable pub put_processors : List Value → Fields → Fields
  unfolding put
  put_processors [] pc = pc
  put_processors (v ∷ vs) pc = put "processor" (arr (values (v ∷ vs))) pc

  -- The body of the loop.
  unfoldable pub generate_definition : ℤ → PipelineDefinition → Result GenerateError Fields
  unfolding put put_buffer put_routes put_processors build_source build_sinks build_processors
  generate_definition topic_workers p =
      let pc =
        put_if (is_positive p.delay) "delay" (num p.delay) (put_workers p topic_workers end) in
      or_error (no_source p.name) (build_source p.source topic_workers) >>= λ source.
      or_error (bad_processor p.name) (build_processors p.processors) >>= λ procs.
      or_error (no_sink_type p.name) (build_sinks p.sink) >>= λ sinks.
      let pc = put_buffer p.buffer (put "source" source pc) in
      let pc = put_routes p.routes (put_processors procs pc) in
      ok (put "sink" (arr (values sinks)) pc)

  -- The loop, with the entries of `config` so far.
  unfoldable pub generate_from : ℤ → Fields → List PipelineDefinition → Result GenerateError Fields
  unfolding generate_definition put
  generate_from topic_workers config [] = ok config
  generate_from topic_workers config (p ∷ ps) = generate_definition topic_workers p >>= λ pc.
      generate_from topic_workers (put p.name (obj pc) config) ps

  unfoldable pub generate_pipeline_config :
      List PipelineDefinition → ℤ → Result GenerateError Fields
  unfolding generate_from
  generate_pipeline_config ps topic_workers = generate_from topic_workers end ps
