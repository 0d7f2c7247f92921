-- ===== src/Generator/Graph/Read.antt =====
-- How Data Prepper's configuration file states the connections of its pipelines: a source or a sink
-- with the one key "pipeline" names the other end.
use dataprepper_operator.Base.{
  ◌≡◌, ◌≢◌, refl, String, Option, none, some, List, [], ◌∷◌, ◌++◌, ◌==◌, string_eq, false,
  if◌then◌else◌, contains, arith,
}
use dataprepper_operator.Validation.{PipelineDef}
use dataprepper_operator.Api.Json.{
  Value, str, arr, obj, Values, nil, cons, Fields, end, field, get, put, field_names,
}

abbrev name_in : Option Value → Option String
name_in (some (str n)) = some n
name_in _ = none

abbrev name_of : Option Value → Option String
name_of (some (obj fs)) = name_in (get "name" fs)
name_of _ = none

abbrev pub connector_name : Value → Option String
connector_name (obj fs) = name_of (get "pipeline" fs)
connector_name _ = none

abbrev pub or_empty : Option String → String
or_empty none = ""
or_empty (some n) = n

abbrev pub connector_names : Values → List String
connector_names nil = []
connector_names (cons v vs) =
    let rest = connector_names vs in elim (connector_name v) [ none ↦ rest | some n ↦ n ∷ rest ]

abbrev pub read_source : Option Value → String
read_source none = ""
read_source (some v) = or_empty (connector_name v)

abbrev pub read_sinks : Option Value → List String
read_sinks (some (arr vs)) = connector_names vs
read_sinks _ = []

-- One entry of the file.
abbrev pub read_definition : String → Value → PipelineDef
read_definition name (obj pc) = record {
  name = name;
  source_pipeline = read_source (get "source" pc);
  sink_pipelines = read_sinks (get "sink" pc);
}
read_definition name _ = record { name = name; source_pipeline = ""; sink_pipelines = [] }

abbrev pub read_graph : Fields → List PipelineDef
read_graph end = []
read_graph (field name v fs) = read_definition name v ∷ read_graph fs

pub get-put :
    (k j : String) (v : Value) (fs : Fields)
    → get j (put k v fs) ≡ (if k == j then some v else get j fs)
unfolding get put
get-put k j v end = refl
get-put k j v (field i w fs) = ground (arith, get-put k j v fs)

-- A new key goes to the end.
pub read_graph-put :
    (k : String) (v : Value) (fs : Fields)
    → contains (field_names fs) k ≡ false
    → read_graph (put k v fs) ≡ read_graph fs ++ read_definition k v ∷ []
unfolding put
read_graph-put k v end new = refl
read_graph-put k v (field i w fs) new = ground (arith, read_graph-put k v fs)

pub field_names-put :
    (k j : String) (v : Value) (fs : Fields)
    → contains (field_names fs) j ≡ false
    → contains (field_names fs) k ≡ false
    → k ≢ j
    → contains (field_names (put k v fs)) j ≡ false
unfolding put
field_names-put k j v end new new' ne = ground arith
field_names-put k j v (field i w fs) new new' ne = ground (arith, field_names-put k j v fs)
