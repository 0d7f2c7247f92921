-- ===== src/Validation/Correct.antt =====
-- `validate_graph` accepts exactly the valid graphs, and what it blames is there.
use dataprepper_operator.Base.{
  orelse_iff, orelse-some, ◌≡◌, ◌≢◌, refl, inl, inr, ◌↔◌, String, List, [], ◌∷◌, arith, string_eq,
  ◌∈◌, Distinct, All, none, some, length, Option-cases,
}
use dataprepper_operator.Validation.{
  PipelineDef, white, GraphError, cycle, out_of_fuel, duplicate, unknown_source, unknown_sink,
  check_names, check_references, neighbours, build_adj, names_of, search_all, validate_graph,
}
use dataprepper_operator.Validation.Walks.{Edge, Reach, Acyclic, Safe-not-cycle, Reach-mono}
use dataprepper_operator.Validation.Adjacency.{
  Feeds, Resolves, check_names-Distinct, check_names_complete, check_references_iff,
  build_adj-Feeds,
}
use dataprepper_operator.Validation.Search.{
  search_all-Safe, search_all-Blames, search_all-ne-out_of_fuel,
}
use dataprepper_operator.Validation.Early.{IsEarly, check_names-IsEarly, check_references-IsEarly}

-- What `ValidateGraph` promises of a graph that it accepts.
pub record IsValidGraph (ps : List PipelineDef) : Type 0 where
  pub distinct : Distinct (names_of ps)
  pub resolved : All (Resolves (names_of ps)) ps
  pub acyclic : Acyclic (Feeds ps)

Feeds-source : (ps : List PipelineDef) (a b : String) → Feeds ps a b → a ∈ names_of ps
Feeds-source [] a b h = absurd h
Feeds-source (p ∷ ps) a b h = ground (arith, Feeds-source ps a b)

Feeds-target :
    (ns : List String) (ps : List PipelineDef) (a b : String)
    → All (Resolves ns) ps
    → Feeds ps a b
    → b ∈ ns
Feeds-target ns [] a b r h = absurd h
Feeds-target ns (p ∷ ps) a b ((_, sinks), rest) h =
    ground (arith, sinks b, Feeds-target ns ps a b rest)

module _ (ps : List PipelineDef) where
  abbrev adj_of : String → List String
  adj_of = neighbours (build_adj [] ps)

  Edge-Feeds : (a b : String) → Edge adj_of a b → Feeds ps a b
  Edge-Feeds a b = (build_adj-Feeds ps a b).0

  Feeds-Edge : (a b : String) → Feeds ps a b → Edge adj_of a b
  Feeds-Edge a b = (build_adj-Feeds ps a b).1

  length-names_of : (qs : List PipelineDef) → length (names_of qs) ≡ length qs
  length-names_of [] = refl
  length-names_of (q ∷ qs) = omega (arith, length-names_of qs)

  passes :
      validate_graph ps ≡ none
      → (check_names [] ps ≡ none)
        × (check_references (names_of ps) ps ≡ none)
        × (search_all adj_of (length ps) ps (λ _. white) ≡ none)
  unfolding validate_graph
  passes h = let (a, b) = (orelse_iff _ _).0 h in let (b1, b2) = (orelse_iff _ _).0 b in (a, b1, b2)

  acyclic_of_passes : validate_graph ps ≡ none → Acyclic (Feeds ps)
  acyclic_of_passes h a b e r =
      let (_, _, found) = passes h in
      let safe = search_all-Safe adj_of (length ps) ps (λ _. white) (λ v g. cc) (λ v g. cc) found in
      Safe-not-cycle (Edge adj_of) (safe a (Feeds-source ps a b e)) (Feeds-Edge a b e)
        (Reach-mono (Feeds ps) (Edge adj_of) Feeds-Edge r)

  -- An error that no loop before the search gives comes from a search after they passed.
  searched :
      (e : GraphError)
      → ¬ (IsEarly e)
      → validate_graph ps ≡ some e
      → All (Resolves (names_of ps)) ps × (search_all adj_of (length ps) ps (λ _. white) ≡ some e)
  unfolding validate_graph
  searched e late h = elim (orelse-some _ _ e h) [
    | inl a ↦ absurd (late (check_names-IsEarly [] ps e a))
    | inr (_, b) ↦ elim (orelse-some _ _ e b) [
      | inl b1 ↦ absurd (late (check_references-IsEarly (names_of ps) ps e b1))
      | inr (known, b2) ↦ ((check_references_iff (names_of ps) ps).0 known, b2)
    ]
  ]

  -- The recursion of the search never runs out of the levels that it is given.
  pub validate_graph-ne-out_of_fuel : validate_graph ps ≢ some out_of_fuel
  validate_graph-ne-out_of_fuel h =
      let (resolved, found) = searched out_of_fuel (λ early. early) h in
      search_all-ne-out_of_fuel adj_of (length ps) (names_of ps)
        (λ a b e. Feeds-target (names_of ps) ps a b resolved (Edge-Feeds a b e))
        (omega (arith, length-names_of ps)) ps (λ _. white) (λ n m. m) found

  -- A reported cycle is one: the first name feeds the second, and the second leads back to it.
  pub validate_graph-cycle :
      (a b : String) → validate_graph ps ≡ some (cycle a b) → Feeds ps a b × Reach (Feeds ps) b a
  validate_graph-cycle a b h =
      let (_, found) = searched (cycle a b) (λ early. early) h in
      let (e, back) =
        search_all-Blames adj_of (length ps) ps (λ _. white) (cycle a b) (λ v g. cc) found in
      (Edge-Feeds a b e, Reach-mono (Edge adj_of) (Feeds ps) Edge-Feeds back)

  search_passes :
      All (Resolves (names_of ps)) ps
      → Acyclic (Feeds ps)
      → search_all adj_of (length ps) ps (λ _. white) ≡ none
  search_passes resolved acyclic =
      elim (Option-cases (search_all adj_of (length ps) ps (λ _. white))) [
        | inl fine ↦ fine
        | inr (e, found) ↦ absurd (refute e found)
      ]
    where
      refute : (e : GraphError) → search_all adj_of (length ps) ps (λ _. white) ≡ some e → ⊥
      refute (cycle a b) found =
          let (e, back) =
            search_all-Blames adj_of (length ps) ps (λ _. white) (cycle a b) (λ v g. cc) found in
          acyclic a b (Edge-Feeds a b e) (Reach-mono (Edge adj_of) (Feeds ps) Edge-Feeds back)
      refute out_of_fuel found =
          search_all-ne-out_of_fuel adj_of (length ps) (names_of ps)
            (λ a b e. Feeds-target (names_of ps) ps a b resolved (Edge-Feeds a b e))
            (omega (arith, length-names_of ps)) ps (λ _. white) (λ n m. m) found
      refute (duplicate n) found =
          search_all-Blames adj_of (length ps) ps (λ _. white) (duplicate n) (λ v g. cc) found
      refute (unknown_source n m) found =
          search_all-Blames adj_of (length ps) ps (λ _. white) (unknown_source n m) (λ v g. cc)
            found
      refute (unknown_sink n m) found =
          search_all-Blames adj_of (length ps) ps (λ _. white) (unknown_sink n m) (λ v g. cc) found

  -- `ValidateGraph` returns no error exactly when the names are distinct, every reference names a
  -- pipeline of the list, and no walk along the sinks comes back to where it began.
  pub validate_graph-none_iff : (validate_graph ps ≡ none) ↔ IsValidGraph ps
  unfolding validate_graph
  validate_graph-none_iff = (
    λ h.
        let (names, refs, _) = passes h in
        record {
          distinct = check_names-Distinct ps names;
          resolved = (check_references_iff (names_of ps) ps).0 refs;
          acyclic = acyclic_of_passes h;
        },
    λ v. (orelse_iff _ _).1 (
      check_names_complete ps v.distinct,
      (orelse_iff _ _).1 (
        (check_references_iff (names_of ps) ps).1 v.resolved,
        search_passes v.resolved v.acyclic,
      ),
    ),
  )
