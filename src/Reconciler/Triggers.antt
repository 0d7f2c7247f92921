-- ===== src/Reconciler/Triggers.antt =====
-- Which pipelines a changed Secret puts into the queue: findPipelinesForSecret,
-- findPipelinesForSecretUnindexed and the index that SetupWithManager registers, of
-- internal/controller/dataprepperpipeline_controller.go. The two lists of the client are parameters.
pub mod Laws
use dataprepper_operator.Base.{
  String, Bool, true, false, if◌then◌else◌, contains, string_eq, Option, none, some, List, [], ◌∷◌,
  map,
}
use dataprepper_operator.Api.Pipeline.{DataPrepperPipelineSpec}
use dataprepper_operator.Generator.Credentials.{referenced_secrets}

-- A pipeline of a list.
pub record Item : Type 0 where
  pub name : String
  pub namespace : String
  pub spec : DataPrepperPipelineSpec

pub record Request : Type 0 where
  pub name : String
  pub namespace : String

abbrev pub request_of : Item → Request
request_of p = record { name = p.name; namespace = p.namespace }

-- The index function.
unfoldable pub index_secrets : Item → List String
unfolding referenced_secrets
index_secrets p = referenced_secrets p.spec.pipelines

unfoldable pub requests_of : (secret : String) → List Item → List Request
unfolding referenced_secrets
requests_of secret [] = []
requests_of secret (p ∷ ps) =
    let rest = requests_of secret ps in
    if contains (referenced_secrets p.spec.pipelines) secret then request_of p ∷ rest else rest

-- The lists by namespace, and by namespace and secret; `none` is an error.
module _ (list : (namespace : String) → Option (List Item))
    (list_indexed : (namespace secret : String) → Option (List Item)) where
  unfoldable pub find_pipelines_for_secret_unindexed : (namespace secret : String) → List Request
  unfolding requests_of
  find_pipelines_for_secret_unindexed namespace secret = elim (list namespace) [
    | none ↦ []
    | some ps ↦ requests_of secret ps
  ]

  unfoldable pub find_pipelines_for_secret : (namespace secret : String) → List Request
  unfolding find_pipelines_for_secret_unindexed
  find_pipelines_for_secret namespace secret = elim (list_indexed namespace secret) [
    | none ↦ find_pipelines_for_secret_unindexed namespace secret
    | some ps ↦ map request_of ps
  ]
