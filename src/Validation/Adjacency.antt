-- ===== src/Validation/Adjacency.antt =====
-- What the three loops before the search establish: distinct names, known references, and an
-- adjacency map that holds the sinks of each pipeline.
use dataprepper_operator.Base.{
  orelse_iff, ◌≡◌, ◌≢◌, refl, ◌⊎◌, inl, ◌↔◌, String, false, List, [], ◌∷◌, ◌++◌, arith, ◌==◌,
  contains, contains-append, string_eq, if◌then◌else◌, ◌∈◌, Distinct, All, none,
}
use dataprepper_operator.Base.Dict.{Dict, lookup, insert, lookup-insert}
use dataprepper_operator.Validation.{
  PipelineDef, check_names, check_sinks, check_source, check_references, neighbours, build_adj,
  names_of,
}

-- `b` is among the sinks of a pipeline named `a`.
abbrev pub Feeds : List PipelineDef → String → String → Type 0
Feeds [] a b = ⊥
Feeds (p ∷ ps) a b = (p.name ≡ a) × (b ∈ p.sink_pipelines) ⊎ Feeds ps a b

-- Every reference of a pipeline names one of `names`; an empty source refers to nothing.
abbrev pub Resolves : List String → PipelineDef → Type 0
Resolves names p =
    ((p.source_pipeline ≢ "") → p.source_pipeline ∈ names)
    × ((s : String) → s ∈ p.sink_pipelines → s ∈ names)

check_names-none :
    (seen : List String) (ps : List PipelineDef)
    → check_names seen ps ≡ none
    → Distinct (names_of ps) × ((n : String) → n ∈ seen → contains (names_of ps) n ≡ false)
unfolding check_names
check_names-none seen [] h = (tt, λ n m. refl)
check_names-none seen (p ∷ ps) h =
    let (d, out) = check_names-none (p.name ∷ seen) ps (ground arith) in
    ((out p.name (ground arith), d), λ n m. ground (arith, out n))

pub check_names-Distinct :
    (ps : List PipelineDef) → check_names [] ps ≡ none → Distinct (names_of ps)
check_names-Distinct ps h = (check_names-none [] ps h).0

check_names-eq-none :
    (seen : List String) (ps : List PipelineDef)
    → Distinct (names_of ps)
    → ((n : String) → n ∈ names_of ps → contains seen n ≡ false)
    → check_names seen ps ≡ none
unfolding check_names
check_names-eq-none seen [] d out = refl
check_names-eq-none seen (p ∷ ps) d out =
    ground
      (arith, out p.name, check_names-eq-none (p.name ∷ seen) ps d.1 (λ n m. ground (arith, out n)))

pub check_names_complete :
    (ps : List PipelineDef) → Distinct (names_of ps) → check_names [] ps ≡ none
check_names_complete ps d = check_names-eq-none [] ps d (λ n m. refl)

check_sinks_iff :
    (names : List String) (n : String) (ss : List String)
    → (check_sinks names n ss ≡ none) ↔ ((s : String) → s ∈ ss → s ∈ names)
unfolding check_sinks
check_sinks_iff names n [] = (λ h s m. cc, λ h. refl)
check_sinks_iff names n (s ∷ ss) = (
  λ h t m. ground (arith, (check_sinks_iff names n ss).0 (ground arith) t),
  λ h. ground (arith, h s, (check_sinks_iff names n ss).1 (λ t m. h t (ground arith))),
)

check_source_iff :
    (names : List String) (p : PipelineDef)
    → (check_source names p ≡ none) ↔ ((p.source_pipeline ≢ "") → p.source_pipeline ∈ names)
unfolding check_source
check_source_iff names p = ground arith

pub check_references_iff :
    (names : List String) (ps : List PipelineDef)
    → (check_references names ps ≡ none) ↔ All (Resolves names) ps
unfolding check_references
check_references_iff names [] = (λ h. tt, λ h. refl)
check_references_iff names (p ∷ ps) =
    let source = check_source_iff names p in
    let sinks = check_sinks_iff names p.name p.sink_pipelines in
    let rest = check_references_iff names ps in
    (
      λ h.
          let (a, b) = (orelse_iff _ _).0 h in
          let (b1, b2) = (orelse_iff _ _).0 b in ((source.0 a, sinks.0 b1), rest.0 b2),
      λ h. (orelse_iff _ _).1 (source.1 h.0.0, (orelse_iff _ _).1 (sinks.1 h.0.1, rest.1 h.1)),
    )

neighbours-insert :
    (adj : Dict (List String)) (k a : String) (ns : List String)
    → neighbours (insert k ns adj) a ≡ (if k == a then ns else neighbours adj a)
unfolding neighbours
neighbours-insert adj k a ns = ground (arith, lookup-insert k a ns adj)

build_adj_edges :
    (adj : Dict (List String)) (ps : List PipelineDef) (a b : String)
    → (b ∈ neighbours (build_adj adj ps) a) ↔ ((b ∈ neighbours adj a) ⊎ Feeds ps a b)
unfolding build_adj
build_adj_edges adj [] a b = (λ h. inl h, λ h. ground arith)
build_adj_edges adj (p ∷ ps) a b =
    let ns = neighbours adj p.name ++ p.sink_pipelines in
    ground (
      arith,
      build_adj_edges (insert p.name ns adj) ps a b,
      neighbours-insert adj p.name a ns,
      contains-append (neighbours adj p.name) p.sink_pipelines b,
    )

neighbours-nil : (a : String) → neighbours [] a ≡ []
unfolding neighbours lookup
neighbours-nil a = refl

-- The adjacency map holds exactly the sink references.
pub build_adj-Feeds :
    (ps : List PipelineDef) (a b : String) → (b ∈ neighbours (build_adj [] ps) a) ↔ Feeds ps a b
build_adj-Feeds ps a b = ground (arith, build_adj_edges [] ps a b, neighbours-nil a)
