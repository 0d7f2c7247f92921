-- ===== src/Tests/Workload.antt =====
-- The generated objects at concrete inputs.
use dataprepper_operator.Base.{
  ◌≡◌, ◌↔◌, refl, String, true, false, ◌||◌, ◌&&◌, contains, string_eq, some, [], ◌∷◌, OnSome,
}
use dataprepper_operator.Base.Dict.{lookup, insert, copy_into}
use dataprepper_operator.Base.Int.{ℤ, pos, int_eq}
use dataprepper_operator.Api.Pipeline.{DataPrepperPipelineSpec}
use dataprepper_operator.Workload.{
  Owner, config_hash_annotation, generate_deployment, generate_service, generate_headless_service,
  generate_pdb, generate_service_monitor,
}
use dataprepper_operator.Workload.Selectors.{
  Matches, name_label, instance_label, or_else, generate_deployment-Matches,
  generate_deployment-config_hash,
}
use dataprepper_operator.Workload.Ports.{numbers, targets, generate_service-routes}
use dataprepper_operator.Tests.Samples.{two_pipelines, listening}

abbrev owner : Owner
owner = record { name = "logs"; namespace = "prod" }

-- A label of the user's that the selector has as well, and its value differs.
abbrev relabelled : DataPrepperPipelineSpec
relabelled = record two_pipelines {
  pipelines = listening ∷ [];
  pod_labels = ("app.kubernetes.io/instance", "other") ∷ [];
  pod_annotations = ("dataprepper.kaasops.io/config-hash", "fixed") ∷ [];
}

abbrev decimal : ℤ → String
decimal n = "n"

generate_deployment-Matches_example :
    (let d = generate_deployment decimal owner relabelled (pos 2) false "1234" in
      ((generate_service decimal owner relabelled).selector ≡ d.selector)
      × ((generate_headless_service owner).selector ≡ d.selector)
      × ((generate_pdb owner (pos 2)).match_labels ≡ d.selector)
      × ((generate_service_monitor owner relabelled).match_labels ≡ d.selector)
      × (Matches d.selector d.template.labels ↔ (
          OnSome (λ v. v ≡ "data-prepper") (lookup name_label relabelled.pod_labels)
          × OnSome (λ v. v ≡ "logs") (lookup instance_label relabelled.pod_labels))))
generate_deployment-Matches_example =
    generate_deployment-Matches decimal owner relabelled (pos 2) false "1234" (refl, tt)

generate_deployment-config_hash_example :
    lookup config_hash_annotation
      (generate_deployment decimal owner relabelled (pos 2) false "1234").template.annotations
    ≡ or_else (lookup config_hash_annotation relabelled.pod_annotations) (some "1234")
generate_deployment-config_hash_example =
    generate_deployment-config_hash decimal owner relabelled (pos 2) false "1234" (refl, tt)

hash_is_hidden :
    lookup config_hash_annotation
      (generate_deployment decimal owner relabelled (pos 2) false "1234").template.annotations
    ≡ some "fixed"
unfolding generate_deployment lookup insert copy_into string_eq
hash_is_hidden = refl

generate_service-routes_example :
    contains
      (numbers
        (generate_deployment decimal owner relabelled (pos 2) true "1234").template.container.ports)
      (pos 2021)
    ≡ (contains (targets (generate_service decimal owner relabelled).ports) (pos 2021)
        || (true && contains (targets (generate_headless_service owner).ports) (pos 2021)))
generate_service-routes_example =
    generate_service-routes decimal owner relabelled (pos 2) true "1234" (pos 2021)
