-- ===== src/Reconciler/Triggers/Laws.antt =====
-- A changed Secret reaches the pipelines that refer to it.
use dataprepper_operator.Base.{
  ◌≡◌, ◌↔◌, ◌⊎◌, inl, inr, refl, sym, subst, arith, String, if◌then◌else◌, contains, ◌∈◌, string_eq,
  Option, none, some, List, [], ◌∷◌, map, if_ind,
}
use dataprepper_operator.Generator.Credentials.{referenced_secrets}
use dataprepper_operator.Generator.Credentials.Laws.{Refers, referenced_secrets_lem}
use dataprepper_operator.Reconciler.Triggers.{
  Item, Request, request_of, index_secrets, requests_of, find_pipelines_for_secret,
  find_pipelines_for_secret_unindexed,
}

-- Some element has the property.
abbrev pub Any : {A : Type 0} → (A → Type 0) → List A → Type 0
Any P [] = ⊥
Any P (x ∷ xs) = P x ⊎ Any P xs

-- The index holds, for each value of the index function, the objects that have it.
abbrev pub indexed : (secret : String) → List Item → List Item
indexed secret [] = []
indexed secret (p ∷ ps) =
    let rest = indexed secret ps in if contains (index_secrets p) secret then p ∷ rest else rest

map-indexed :
    (secret : String) (ps : List Item) → map request_of (indexed secret ps) ≡ requests_of secret ps
unfolding requests_of index_secrets
map-indexed secret [] = refl
map-indexed secret (p ∷ ps) = ground (arith, map-indexed secret ps)

-- The pipeline refers to the secret, and this is its request.
abbrev pub Asks : (secret : String) → Request → Item → Type 0
Asks secret r p = Refers p.spec.pipelines secret × (request_of p ≡ r)

referenced_secrets-Refers :
    (p : Item) (secret : String)
    → (secret ∈ referenced_secrets p.spec.pipelines) ↔ Refers p.spec.pipelines secret
referenced_secrets-Refers p secret = (referenced_secrets_lem p.spec.pipelines).1 secret

requests_of_iff :
    (secret : String) (ps : List Item) (r : Request)
    → Any (λ q. q ≡ r) (requests_of secret ps) ↔ Any (Asks secret r) ps
unfolding requests_of
requests_of_iff secret [] r = (λ h. h, λ h. h)
requests_of_iff secret (p ∷ ps) r =
    let rest = requests_of_iff secret ps r in
    if_ind (λ (rs : List Request). Any (λ q. q ≡ r) rs ↔ Any (Asks secret r) (p ∷ ps))
      (contains (referenced_secrets p.spec.pipelines) secret) _ _
      (λ h. (
        λ a. elim a [
          | inl e ↦ inl ((referenced_secrets-Refers p secret).0 h, e)
          | inr b ↦ inr (rest.0 b)
        ],
        λ a. elim a [ inl e ↦ inl e.1 | inr b ↦ inr (rest.1 b) ],
      ))
      (λ h. (
        λ a. inr (rest.0 a),
        λ a. elim a [
          | inl e ↦ absurd (cc ((referenced_secrets-Refers p secret).1 e.0, h))
          | inr b ↦ rest.1 b
        ],
      ))

module _ (list : (namespace : String) → Option (List Item))
    (list_indexed : (namespace secret : String) → Option (List Item)) where
  found :
      (namespace secret : String) (ps : List Item)
      → list namespace ≡ some ps
      → ((list_indexed namespace secret ≡ none)
          ⊎ (list_indexed namespace secret ≡ some (indexed secret ps)))
      → find_pipelines_for_secret list list_indexed namespace secret ≡ requests_of secret ps
  unfolding find_pipelines_for_secret find_pipelines_for_secret_unindexed
  found namespace secret ps listed (inl missing) =
      rw (find_pipelines_for_secret, missing, find_pipelines_for_secret_unindexed, listed) refl
  found namespace secret ps listed (inr there) =
      rw (find_pipelines_for_secret, there) (map-indexed secret ps)

  -- Where the namespace can be listed and the index, if it answers, has the objects by the index
  -- function: a pipeline gets a request for the secret exactly when one of its own definitions, before
  -- the merge with the defaults, names the secret for the credentials of a Kafka or S3 source or of a
  -- Kafka, S3 or OpenSearch sink, with the index and without it. The `dlqSecretRef` of an OpenSearch
  -- sink does not count.
  pub find_pipelines_for_secret_iff :
      (namespace secret : String) (ps : List Item) (r : Request)
      → list namespace ≡ some ps
      → ((list_indexed namespace secret ≡ none)
          ⊎ (list_indexed namespace secret ≡ some (indexed secret ps)))
      → Any (λ q. q ≡ r) (find_pipelines_for_secret list list_indexed namespace secret)
        ↔ Any (Asks secret r) ps
  find_pipelines_for_secret_iff namespace secret ps r listed index =
      subst (λ (rs : List Request). Any (λ q. q ≡ r) rs ↔ Any (Asks secret r) ps)
        (sym (found namespace secret ps listed index)) (requests_of_iff secret ps r)
