-- ===== src/Workload/Selectors.antt =====
-- The selectors and the pods' labels and annotations.
use dataprepper_operator.Base.{
  ◌≡◌, ◌↔◌, refl, sym, ◌∙◌, arith, ap, String, Bool, false, string_eq, Option, none, some, List, [],
  ◌∷◌, OnSome, contains, Distinct,
}
use dataprepper_operator.Base.Int.{ℤ}
use dataprepper_operator.Base.Dict.{Dict, lookup, insert, copy_into, lookup-insert}
use dataprepper_operator.Api.Pipeline.{DataPrepperPipelineSpec}
use dataprepper_operator.Generator.Helpers.{selector_labels}
use dataprepper_operator.Workload.{
  Owner, pod_labels, pod_annotations, config_hash_annotation, generate_deployment, generate_service,
  generate_headless_service, generate_pdb, generate_service_monitor,
}

-- A map has each key once.
abbrev pub keys {ℓ} : {V : Type ℓ} → Dict V → List String
keys [] = []
keys ((k, v) ∷ m) = k ∷ keys m

abbrev pub or_else {ℓ} : {V : Type ℓ} → Option V → Option V → Option V
or_else none d = d
or_else (some v) d = some v

lookup-absent {ℓ} :
    {V : Type ℓ} (k : String) (m : Dict V) → contains (keys m) k ≡ false → lookup k m ≡ none
unfolding lookup
lookup-absent k [] h = refl
lookup-absent k ((j, v) ∷ m) h = ground (arith, lookup-absent k m)

-- A copied map wins over the one it is copied into.
pub lookup-copy_into :
    {V : Type 0} (k : String) (dst src : Dict V)
    → Distinct (keys src)
    → lookup k (copy_into dst src) ≡ or_else (lookup k src) (lookup k dst)
unfolding lookup copy_into
lookup-copy_into k dst [] h = refl
lookup-copy_into k dst ((j, v) ∷ src) h = ground (
  arith,
  lookup-copy_into k (insert j v dst) src h.1,
  lookup-insert j k v dst,
  lookup-absent j src h.0,
)

-- The labels satisfy the selector.
abbrev pub Matches : (selector labels : Dict String) → Type 0
Matches [] labels = Unit
Matches ((k, v) ∷ selector) labels = (lookup k labels ≡ some v) × Matches selector labels

abbrev pub name_label : String
name_label = "app.kubernetes.io/name"

abbrev pub instance_label : String
instance_label = "app.kubernetes.io/instance"

lookup-selector_labels :
    (name : String)
    → (lookup name_label (copy_into [] (selector_labels name)) ≡ some "data-prepper")
      × (lookup instance_label (copy_into [] (selector_labels name)) ≡ some name)
unfolding selector_labels copy_into insert lookup string_eq
lookup-selector_labels name = (refl, refl)

or_else_iff :
    {V : Type 0} (user own : Option V) (v : V)
    → own ≡ some v
    → (or_else user own ≡ some v) ↔ OnSome (λ w. w ≡ v) user
or_else_iff none own v h = (λ e. tt, λ e. h)
or_else_iff (some w) own v h = (λ e. ground arith, λ e. ap some e)

module _ (decimal : ℤ → String) where
  -- The Deployment, both services, the budget and the monitor select by the same labels, and the pods
  -- of the Deployment have these exactly when the labels of the specification, a map, do not give
  -- another value to one of the two keys.
  pub generate_deployment-Matches :
      (owner : Owner) (spec : DataPrepperPipelineSpec) (replicas : ℤ) (peer : Bool) (hash : String)
      → Distinct (keys spec.pod_labels)
      → (let d = generate_deployment decimal owner spec replicas peer hash in
          ((generate_service decimal owner spec).selector ≡ d.selector)
          × ((generate_headless_service owner).selector ≡ d.selector)
          × ((generate_pdb owner replicas).match_labels ≡ d.selector)
          × ((generate_service_monitor owner spec).match_labels ≡ d.selector)
          × (Matches d.selector d.template.labels ↔ (
              OnSome (λ v. v ≡ "data-prepper") (lookup name_label spec.pod_labels)
              × OnSome (λ v. v ≡ owner.name) (lookup instance_label spec.pod_labels))))
  unfolding generate_deployment generate_service generate_headless_service generate_pdb
      generate_service_monitor pod_labels selector_labels
  generate_deployment-Matches owner spec replicas peer hash distinct =
      let own = copy_into [] (selector_labels owner.name) in
      let name =
        or_else_iff (lookup name_label spec.pod_labels) _ "data-prepper"
          (lookup-selector_labels owner.name).0 in
      let instance_of =
        or_else_iff (lookup instance_label spec.pod_labels) _ owner.name
          (lookup-selector_labels owner.name).1 in
      (
        refl,
        refl,
        refl,
        refl,
        (
          λ m. (
            name.0 (sym (lookup-copy_into name_label own spec.pod_labels distinct) ∙ m.0),
            instance_of.0
                (sym (lookup-copy_into instance_label own spec.pod_labels distinct) ∙ m.1.0),
          ),
          λ h. (
            lookup-copy_into name_label own spec.pod_labels distinct ∙ name.1 h.0,
            (lookup-copy_into instance_label own spec.pod_labels distinct ∙ instance_of.1 h.1, tt),
          ),
        ),
      )

  -- The pods carry the hash of the configuration, unless the annotations of the specification, a
  -- map, have its key: then their value stands in its place, whatever the hash.
  pub generate_deployment-config_hash :
      (owner : Owner) (spec : DataPrepperPipelineSpec) (replicas : ℤ) (peer : Bool) (hash : String)
      → Distinct (keys spec.pod_annotations)
      → lookup config_hash_annotation
          (generate_deployment decimal owner spec replicas peer hash).template.annotations
        ≡ or_else (lookup config_hash_annotation spec.pod_annotations) (some hash)
  unfolding generate_deployment pod_annotations lookup string_eq
  generate_deployment-config_hash owner spec replicas peer hash distinct =
      lookup-copy_into config_hash_annotation ((config_hash_annotation, hash) ∷ [])
        spec.pod_annotations distinct
