-- ===== src/Generator/Helpers.antt =====
-- internal/generator/helpers.go, less its hash.
use dataprepper_operator.Base.{
  String, Bool, true, false, ◌||◌, Option, none, some, List, [], ◌∷◌, contains, string_eq, ◌==◌,
  not, ◌&&◌, if◌then◌else◌, is_set,
}
use dataprepper_operator.Base.Dict.{Dict}
use dataprepper_operator.Base.Int.{ℤ, pos, int_eq, to_int32, ltb_ℤ}
use dataprepper_operator.Base.Result.{Result, ok, err, ◌>>=◌}
use dataprepper_operator.Api.Json.{Value, null, obj, Fields, end}
use dataprepper_operator.Api.Common.{ServiceMonitorSpec}
use dataprepper_operator.Api.Pipeline.{SourceSpec, PipelineDefinition}

-- What the generator refuses, with the name of the pipeline.
pub data GenerateError : Type 0 where
  bad_processor no_source no_sink_type : (name : String) → GenerateError
  bad_raw_config : GenerateError

unfoldable pub common_labels : String → Dict String
common_labels name =
    ("app.kubernetes.io/managed-by", "dataprepper-operator")
    ∷ ("app.kubernetes.io/name", "data-prepper")
    ∷ ("app.kubernetes.io/instance", name)
    ∷ []

unfoldable pub selector_labels : String → Dict String
selector_labels name =
    ("app.kubernetes.io/name", "data-prepper") ∷ ("app.kubernetes.io/instance", name) ∷ []

-- A target of type `map[string]any` takes an object, and `null` leaves it nil.
abbrev pub as_map : Option Value → Option Fields
as_map none = none
as_map (some (obj fs)) = some fs
as_map (some null) = some end
as_map (some _) = none

module _ (unmarshal : String → Option Value) where
  unfoldable pub json_to_map : String → Option Fields
  json_to_map raw = as_map (unmarshal raw)

  unfoldable pub extract_processors : String → List String → Result GenerateError (List Fields)
  unfolding json_to_map
  extract_processors name [] = ok []
  extract_processors name (raw ∷ raws) =
      let rest = extract_processors name raws in
      elim (json_to_map raw) [
        | none ↦ err (bad_processor name)
        | some m ↦ rest >>= λ ms. ok (m ∷ ms)
      ]

  unfoldable pub extract_processor_maps :
      List PipelineDefinition → Result GenerateError (List (List Fields))
  unfolding extract_processors
  extract_processor_maps [] = ok []
  extract_processor_maps (p ∷ ps) =
      let rest = extract_processor_maps ps in
      extract_processors p.name p.processors >>= λ procs. rest >>= λ more. ok (procs ∷ more)

any_server : List PipelineDefinition → Bool
any_server [] = false
any_server (p ∷ ps) = is_set p.source.http || is_set p.source.otel || any_server ps

abbrev pub is_enabled : Option ServiceMonitorSpec → Bool
is_enabled none = false
is_enabled (some m) = m.enabled

unfoldable pub needs_service : List PipelineDefinition → Option ServiceMonitorSpec → Bool
unfolding any_server
needs_service ps monitor = if is_enabled monitor then true else any_server ps

-- The port of a source, 0 where it has none.
unfoldable pub source_port : SourceSpec → ℤ
source_port s = elim s.http [
  | some h ↦ to_int32 h.port
  | none ↦ elim s.otel [ some o ↦ to_int32 o.port | none ↦ pos 0 ]
]

-- The loop of `SourcePorts`; `ports` holds the keys of `seen` as well.
unfoldable pub collect_ports : List ℤ → List PipelineDefinition → List ℤ
unfolding source_port
collect_ports seen [] = []
collect_ports seen (p ∷ ps) =
    let port = source_port p.source in
    let fresh = not (port == pos 0) && not (contains seen port) in
    let rest = collect_ports (if fresh then port ∷ seen else seen) ps in
    if fresh then port ∷ rest else rest

unfoldable pub insert_sorted : ℤ → List ℤ → List ℤ
insert_sorted n [] = n ∷ []
insert_sorted n (m ∷ ms) = if ltb_ℤ m n then m ∷ insert_sorted n ms else n ∷ m ∷ ms

-- `slices.Sort`
unfoldable pub sort : List ℤ → List ℤ
unfolding insert_sorted
sort [] = []
sort (n ∷ ns) = insert_sorted n (sort ns)

unfoldable pub source_ports : List PipelineDefinition → List ℤ
unfolding collect_ports sort
source_ports ps = sort (collect_ports [] ps)
