-- ===== src/Reconciler/Resources/Server.antt =====
-- What the reconciler relies on of the Kubernetes client.
use dataprepper_operator.Base.{◌≡◌, String, false, none, List, ◌⊎◌}
use dataprepper_operator.Base.Dict.{Dict}
use dataprepper_operator.Workload.{ServicePort}
use dataprepper_operator.Base.Result.{Result, ok, err}
use dataprepper_operator.Discovery.Rollout.{OwnerReference}
use dataprepper_operator.Reconciler.Resources.{
  Key, key_eq, Spec, service_spec, Object, ApiError, not_found, Api,
}

-- The object that CreateOrUpdate gives to the function: the stored one, or the one at hand where
-- there is none.
abbrev pub current : Object → Result ApiError Object → Object
current fresh (ok o) = o
current fresh (err e) = fresh

-- What the server stores of a content that it is sent: it chooses the cluster IP of a Service that
-- leaves it open.
pub data IsFilled : Spec → Spec → Type 0 where
  as_sent : (s : Spec) → IsFilled s s
  allocated :
      (type ip : String) (selector : Dict String) (ports : List ServicePort)
      → IsFilled (service_spec type "" selector ports) (service_spec type ip selector ports)

pub record IsStored (sent kept : Object) : Type 0 where
  pub labels : kept.labels ≡ sent.labels
  pub owner_references : kept.owner_references ≡ sent.owner_references
  pub spec : IsFilled sent.spec kept.spec

-- CreateOrUpdate stores what the function made of the object, and leaves an object that the function
-- does not change. Delete removes the object, and no call changes an object of another key.
pub record IsServer {Cluster : Type 0} (api : Api Cluster) : Type 0 where
  pub stores :
      (k : Key) (fresh : Object) (f : Object → Result String Object) (c : Cluster)
      → (api.create_or_update k fresh f c).0 ≡ none
      → (o kept : Object) × (f (current fresh (api.get k c)) ≡ ok o)
        × (api.get k (api.create_or_update k fresh f c).1 ≡ ok kept)
        × IsStored o kept
  pub leaves :
      (k : Key) (fresh o : Object) (f : Object → Result String Object) (c : Cluster)
      → api.get k c ≡ ok o
      → f o ≡ ok o
      → api.get k (api.create_or_update k fresh f c).1 ≡ ok o
  pub removes :
      (k : Key) (c : Cluster)
      → (api.delete k c).0 ≡ none
      → api.get k (api.delete k c).1 ≡ err not_found
  pub stores_only :
      (k other : Key) (fresh : Object) (f : Object → Result String Object) (c : Cluster)
      → key_eq k other ≡ false
      → api.get other (api.create_or_update k fresh f c).1 ≡ api.get other c
  pub removes_only :
      (k other : Key) (c : Cluster)
      → key_eq k other ≡ false
      → api.get other (api.delete k c).1 ≡ api.get other c

-- No call fails for a reason of its own: the server refuses no object.
pub record IsAvailable {Cluster : Type 0} (api : Api Cluster) : Type 0 where
  pub answers :
      (k : Key) (c : Cluster)
      → (api.get k c ≡ err not_found) ⊎ ((o : Object) × (api.get k c ≡ ok o))
  pub writes :
      (k : Key) (fresh o : Object) (f : Object → Result String Object) (c : Cluster)
      → f (current fresh (api.get k c)) ≡ ok o
      → (api.create_or_update k fresh f c).0 ≡ none
  pub deletes :
      (k : Key) (o : Object) (c : Cluster) → api.get k c ≡ ok o → (api.delete k c).0 ≡ none

-- SetControllerReference adds the owner where no other object controls, and leaves its own reference.
pub record IsController (set : List OwnerReference → Result String (List OwnerReference))
    : Type 0 where
  pub keeps : (refs after : List OwnerReference) → set refs ≡ ok after → set after ≡ ok after
