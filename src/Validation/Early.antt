-- ===== src/Validation/Early.antt =====
-- Which errors the loops of `ValidateGraph` before its search give.
use dataprepper_operator.Base.{
  orelse-some, ◌≡◌, subst, inl, inr, String, List, [], ◌∷◌, ◌==◌, contains, string_eq, some,
  Bool-cases, not, ◌&&◌,
}
use dataprepper_operator.Validation.{
  PipelineDef, GraphError, cycle, out_of_fuel, duplicate, unknown_source, unknown_sink, check_names,
  check_references, check_sinks, check_source,
}
use mathlib.Core.Option.{some-injective}

-- The errors of the loops before the search.
abbrev pub IsEarly : GraphError → Type 0
IsEarly (duplicate _) = Unit
IsEarly (unknown_source _ _) = Unit
IsEarly (unknown_sink _ _) = Unit
IsEarly (cycle _ _) = ⊥
IsEarly out_of_fuel = ⊥

pub check_names-IsEarly :
    (seen : List String) (ps : List PipelineDef) (e : GraphError)
    → check_names seen ps ≡ some e
    → IsEarly e
unfolding check_names
check_names-IsEarly seen [] e h = cc
check_names-IsEarly seen (p ∷ ps) e h = elim (Bool-cases (contains seen p.name)) [
  | inl old ↦ subst IsEarly (some-injective _ _ (rw (old, check_names) at h)) tt
  | inr new ↦ check_names-IsEarly (p.name ∷ seen) ps e (rw (new, check_names) at h)
]

check_sinks-IsEarly :
    (names : List String) (n : String) (ss : List String) (e : GraphError)
    → check_sinks names n ss ≡ some e
    → IsEarly e
unfolding check_sinks
check_sinks-IsEarly names n [] e h = cc
check_sinks-IsEarly names n (s ∷ ss) e h = elim (Bool-cases (contains names s)) [
  | inl old ↦ check_sinks-IsEarly names n ss e (rw (old, check_sinks) at h)
  | inr new ↦ subst IsEarly (some-injective _ _ (rw (new, check_sinks) at h)) tt
]

check_source-IsEarly :
    (names : List String) (p : PipelineDef) (e : GraphError)
    → check_source names p ≡ some e
    → IsEarly e
unfolding check_source
check_source-IsEarly names p e h =
    let t = not (p.source_pipeline == "") && not (contains names p.source_pipeline) in
    elim (Bool-cases t) [
      | inl bad ↦ subst IsEarly (some-injective _ _ (rw bad at h)) tt
      | inr good ↦ cc (rw good at h)
    ]

pub check_references-IsEarly :
    (names : List String) (ps : List PipelineDef) (e : GraphError)
    → check_references names ps ≡ some e
    → IsEarly e
unfolding check_references
check_references-IsEarly names [] e h = cc
check_references-IsEarly names (p ∷ ps) e h = elim (orelse-some _ _ e h) [
  | inl a ↦ check_source-IsEarly names p e a
  | inr (_, b) ↦ elim (orelse-some _ _ e b) [
    | inl b1 ↦ check_sinks-IsEarly names p.name p.sink_pipelines e b1
    | inr (_, b2) ↦ check_references-IsEarly names ps e b2
  ]
]
