-- ===== src/Validation.antt =====
-- The graph check of internal/validation/graph.go.
-- `names` is a list that is used as a set, `adj` a dictionary, and `color` a function whose value
-- at a name that was never painted is `white`, the zero value of the Go map.
pub mod Walks
pub mod Finished
pub mod Cycles
pub mod Fuel
pub mod Adjacency
pub mod Search
pub mod Early
pub mod Correct
use dataprepper_operator.Base.{
  orelse, ℕ, zero, suc, String, Bool, true, Option, none, some, List, [], ◌∷◌, ◌++◌, map, ◌==◌,
  contains, string_eq, if◌then◌else◌, length, ◌||◌, not, ◌&&◌, ltb,
}
use dataprepper_operator.Base.Dict.{Dict, lookup, insert}

pub record PipelineDef : Type 0 where
  pub name : String
  pub source_pipeline : String
  pub sink_pipelines : List String

-- The errors of `ValidateGraph`. `out_of_fuel` is the model's own: `dfs` was cut off.
pub data GraphError : Type 0 where
  duplicate : String → GraphError
  unknown_source unknown_sink : String → String → GraphError
  cycle : String → String → GraphError
  out_of_fuel : GraphError

-- The values 0, 1 and 2 of `color`.
pub data Color : Type 0 where
  white gray black : Color

abbrev pub Colors : Type 0
Colors = String → Color

abbrev pub paint : Colors → String → Color → Colors
paint c n v = λ m. if n == m then v else c m

-- What a search returns: the colours it leaves, or its error.
pub data Outcome : Type 0 where
  done : Colors → Outcome
  failed : GraphError → Outcome

-- The first loop, which fills `names`.
pub check_names : List String → List PipelineDef → Option GraphError
check_names names [] = none
check_names names (p ∷ ps) =
    if contains names p.name then some (duplicate p.name) else check_names (p.name ∷ names) ps

pub check_sinks : List String → String → List String → Option GraphError
check_sinks names n [] = none
check_sinks names n (s ∷ ss) =
    if contains names s then check_sinks names n ss else some (unknown_sink n s)

pub check_source : List String → PipelineDef → Option GraphError
check_source names p =
    if not (p.source_pipeline == "") && not (contains names p.source_pipeline)
    then some (unknown_source p.name p.source_pipeline)
    else none

-- The second loop.
pub check_references : List String → List PipelineDef → Option GraphError
check_references names [] = none
check_references names (p ∷ ps) =
    orelse (check_source names p)
      (orelse (check_sinks names p.name p.sink_pipelines) (check_references names ps))

-- `adj[n]`, nil where there is no such key.
pub neighbours : Dict (List String) → String → List String
neighbours adj n = elim (lookup n adj) [ none ↦ [] | some ns ↦ ns ]

pub build_adj : Dict (List String) → List PipelineDef → Dict (List String)
unfolding neighbours
build_adj adj [] = adj
build_adj adj (p ∷ ps) =
    build_adj (insert p.name (neighbours adj p.name ++ p.sink_pipelines) adj) ps

-- The loop of `dfs` over `adj[n]`. `rec` is the recursive call.
pub visit : (String → Colors → Outcome) → String → List String → Colors → Outcome
visit rec n [] c = done c
visit rec n (next ∷ rest) c = elim (c next) [
  | gray ↦ failed (cycle n next)
  | white ↦ elim (rec next c) [ done c' ↦ visit rec n rest c' | failed e ↦ failed e ]
  | black ↦ visit rec n rest c
]

-- `color[n] = 2` at the end of a search.
abbrev pub blacken : String → Outcome → Outcome
blacken n (done c) = done (paint c n black)
blacken n (failed e) = failed e

pub dfs : (String → List String) → ℕ → String → Colors → Outcome
unfolding visit
dfs adj zero n c = failed out_of_fuel
dfs adj (suc fuel) n c = blacken n (visit (dfs adj fuel) n (adj n) (paint c n gray))

-- The last loop, over the roots of the search.
pub search_all : (String → List String) → ℕ → List PipelineDef → Colors → Option GraphError
unfolding dfs
search_all adj fuel [] c = none
search_all adj fuel (p ∷ ps) c = elim (c p.name) [
  | white ↦ elim (dfs adj fuel p.name c) [ done c' ↦ search_all adj fuel ps c' | failed e ↦ some e ]
  | _ ↦ search_all adj fuel ps c
]

abbrev pub names_of : List PipelineDef → List String
names_of = map (λ p. p.name)

-- A search paints a new name at each level, so as many levels as there are names are enough.
unfoldable pub validate_graph : List PipelineDef → Option GraphError
unfolding check_names check_references check_source check_sinks build_adj search_all
validate_graph ps = orelse (check_names [] ps) (
    orelse (check_references (names_of ps) ps)
      (search_all (neighbours (build_adj [] ps)) (length ps) ps (λ _. white)))
