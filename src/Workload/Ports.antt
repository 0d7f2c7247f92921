-- ===== src/Workload/Ports.antt =====
-- The ports of the services are open in the container.
use native.Mathlib.Omega.{arith}
use dataprepper_operator.Base.{
  ◌≡◌, refl, arith, ap, String, Bool, true, false, ◌||◌, ◌&&◌, contains, List, [], ◌∷◌, map,
}
use dataprepper_operator.Base.Int.{ℤ, int_eq}
use dataprepper_operator.Api.Pipeline.{DataPrepperPipelineSpec}
use dataprepper_operator.Generator.Helpers.{source_ports}
use dataprepper_operator.Workload.{
  Owner, Port, ServicePort, container_port, service_port, container_ports, generate_deployment,
  generate_service, generate_headless_service, container_of,
}

-- The numbers of the ports, and the targets of a service's.
abbrev pub numbers : List Port → List ℤ
numbers [] = []
numbers (p ∷ ps) = p.number ∷ numbers ps

abbrev pub targets : List ServicePort → List ℤ
targets [] = []
targets (p ∷ ps) = p.target ∷ targets ps

module _ (decimal : ℤ → String) where
  numbers-map : (ns : List ℤ) → numbers (map (container_port decimal) ns) ≡ ns
  numbers-map [] = refl
  numbers-map (n ∷ ns) = ap (λ ms. n ∷ ms) (numbers-map ns)

  targets-map : (ns : List ℤ) → targets (map (service_port decimal) ns) ≡ ns
  targets-map [] = refl
  targets-map (n ∷ ns) = ap (λ ms. n ∷ ms) (targets-map ns)

  -- The open ports of the container are the targets of the service and, with the peer forwarder, the
  -- target of the headless service; and no others.
  pub generate_service-routes :
      (owner : Owner) (spec : DataPrepperPipelineSpec) (replicas : ℤ) (peer : Bool) (hash : String)
      (n : ℤ)
      → contains
          (numbers
            (generate_deployment decimal owner spec replicas peer hash).template.container.ports)
          n
        ≡ (contains (targets (generate_service decimal owner spec).ports) n
            || (peer && contains (targets (generate_headless_service owner).ports) n))
  unfolding generate_deployment generate_service generate_headless_service container_ports
      container_of
  generate_service-routes owner spec replicas true hash n =
      rw (numbers-map (source_ports spec.pipelines), targets-map (source_ports spec.pipelines))
        (ground arith)
  generate_service-routes owner spec replicas false hash n =
      rw (numbers-map (source_ports spec.pipelines), targets-map (source_ports spec.pipelines))
        (ground arith)
