-- ===== src/Discovery/Cycle/Laws.antt =====
-- The names in the status are those that the rollout and the cleanup work with.
use dataprepper_operator.Base.{
  ◌≡◌, refl, arith, ap, String, List, [], ◌∷◌, contains, inl, inr, string_eq, ◌||◌, is_set, ◌<>◌,
}
use dataprepper_operator.Base.Dict.{Dict, lookup, insert, lookup-insert}
use dataprepper_operator.Base.Result.{Result, ok, err, Result-cases}
use dataprepper_operator.Api.Pipeline.{DataPrepperPipelineSpec}
use dataprepper_operator.Discovery.Names.{sanitize_name}
use dataprepper_operator.Discovery.Sources.{DiscoveredSource}
use dataprepper_operator.Discovery.Rollout.{Desired, render_failed, build_desired}
use dataprepper_operator.Discovery.Cleanup.{active_names}
use dataprepper_operator.Discovery.Cycle.{
  DiscoveryPhase, DiscoveredSourceStatus, source_statuses, build_discovery_status,
}

abbrev pub pipeline_refs : List DiscoveredSourceStatus → List String
pipeline_refs [] = []
pipeline_refs (s ∷ ss) = s.pipeline_ref ∷ pipeline_refs ss

source_statuses-refs :
    (owner : String) (sources : List DiscoveredSource)
    → pipeline_refs (source_statuses owner sources) ≡ active_names owner sources
unfolding source_statuses active_names
source_statuses-refs owner [] = refl
source_statuses-refs owner (s ∷ ss) =
    ap (λ rest. sanitize_name (owner <> "-" <> s.name) ∷ rest) (source_statuses-refs owner ss)

module _ (render : DiscoveredSource → Result String DataPrepperPipelineSpec)
    (compute_spec_hash : DataPrepperPipelineSpec → String) where
  build_desired-names :
      (owner : String) (acc : Dict Desired) (sources : List DiscoveredSource)
      (desired : Dict Desired)
      → build_desired render compute_spec_hash owner acc sources ≡ ok desired
      → (name : String)
      → is_set (lookup name desired)
        ≡ (is_set (lookup name acc) || contains (active_names owner sources) name)
  unfolding build_desired active_names
  build_desired-names owner acc [] desired h name = ground arith
  build_desired-names owner acc (s ∷ ss) desired h name = elim (Result-cases (render s)) [
    | inl (e, bad) ↦
        let never : err (render_failed s.name e) ≡ ok desired = rw (build_desired, bad) at h in cc
    | inr (spec, good) ↦
        let key = sanitize_name (owner <> "-" <> s.name) in
        let entry : Desired = record { spec = spec; hash = compute_spec_hash spec } in
        let rest =
          build_desired-names owner (insert key entry acc) ss desired
            (rw (build_desired, good) at h) name in
        ground (arith, rest, lookup-insert key name entry acc)
  ]

  -- When all sources render, the pipelines that the rollout wants are, by name, exactly those that
  -- the cleanup spares and those that the status refers to.
  pub build_desired-active_names :
      (owner : String) (phase : DiscoveryPhase) (sources : List DiscoveredSource)
      (desired : Dict Desired)
      → build_desired render compute_spec_hash owner [] sources ≡ ok desired
      → ((name : String)
          → is_set (lookup name desired) ≡ contains (active_names owner sources) name)
        × (pipeline_refs (build_discovery_status owner phase sources).sources
            ≡ active_names owner sources)
  unfolding build_discovery_status lookup
  build_desired-active_names owner phase sources desired h =
      (build_desired-names owner [] sources desired h, source_statuses-refs owner sources)
