-- ===== src/Reconciler/Resources/Settled.antt =====
-- One object after reconcileOrDelete.
use dataprepper_operator.Base.{
  ◌≡◌, refl, sym, subst, ◌∙◌, String, Bool, true, false, Option, none, List, inl, inr, if_ind,
}
use dataprepper_operator.Base.Result.{Result, ok, err, Result-cases}
use dataprepper_operator.Discovery.Rollout.{OwnerReference}
use dataprepper_operator.Reconciler.Resources.{
  Key, key_eq, Spec, Object, ApiError, not_found, api_failed, Api, Wanted, delete_found, blank,
  mutate, reconcile_or_delete,
}
use dataprepper_operator.Reconciler.Resources.Server.{
  current, IsFilled, as_sent, IsStored, IsServer, IsAvailable, IsController,
}

-- The content is made so that making it again from what the server stores of it changes nothing.
abbrev pub IsStable : Wanted → Type 0
IsStable w = (s kept : Spec) → IsFilled (w.content s) kept → kept ≡ w.content kept

module _ (set : List OwnerReference → Result String (List OwnerReference)) where
  -- The object has the labels and the content that are wanted, and the owner.
  pub record IsMade (w : Wanted) (o : Object) : Type 0 where
    pub labelled : o.labels ≡ w.labels
    pub filled : o.spec ≡ w.content o.spec
    pub owned : set o.owner_references ≡ ok o.owner_references

  -- An object that is needed stands in the cluster as it is wanted, another does not exist.
  abbrev SettledIf : (needed : Bool) → Wanted → Result ApiError Object → Type 0
  SettledIf true w r = (o : Object) × (r ≡ ok o) × IsMade w o
  SettledIf false w r = r ≡ err not_found

  abbrev pub IsSettled : Wanted → Result ApiError Object → Type 0
  IsSettled w r = SettledIf w.needed w r

  to_settled :
      (w : Wanted) (b : Bool) (r : Result ApiError Object)
      → w.needed ≡ b
      → SettledIf b w r
      → IsSettled w r
  to_settled w b r p h = subst (λ x. SettledIf x w r) (sym p) h

  of_settled :
      (w : Wanted) (b : Bool) (r : Result ApiError Object)
      → w.needed ≡ b
      → IsSettled w r
      → SettledIf b w r
  of_settled w b r p h = subst (λ x. SettledIf x w r) p h

  abbrev made : Wanted → Object → List OwnerReference → Object
  made w o refs = record { labels = w.labels; owner_references = refs; spec = w.content o.spec }

  mutate-ok :
      (w : Wanted) (o : Object) (refs : List OwnerReference)
      → set o.owner_references ≡ ok refs
      → mutate set w o ≡ ok (made w o refs)
  unfolding mutate
  mutate-ok w o refs p = rw (mutate, p) refl

  mutate-err :
      (w : Wanted) (o : Object) (e : String)
      → set o.owner_references ≡ err e
      → mutate set w o ≡ err e
  unfolding mutate
  mutate-err w o e p = rw (mutate, p) refl

  made-IsMade :
      (w : Wanted) (o : Object) (refs : List OwnerReference)
      → IsController set
      → IsStable w
      → set o.owner_references ≡ ok refs
      → IsMade w (made w o refs)
  made-IsMade w o refs controller stable p = record {
    labelled = refl;
    filled = stable o.spec (w.content o.spec) (as_sent (w.content o.spec));
    owned = controller.keeps o.owner_references refs p;
  }

  pub mutate-IsMade :
      (w : Wanted) (o new : Object)
      → IsController set
      → IsStable w
      → mutate set w o ≡ ok new
      → IsMade w new
  mutate-IsMade w o new controller stable h = elim (Result-cases (set o.owner_references)) [
    | inl (e, p) ↦ cc (h, mutate-err w o e p)
    | inr (refs, p) ↦
        subst (IsMade w) (cc (h, mutate-ok w o refs p)) (made-IsMade w o refs controller stable p)
  ]

  -- What the server stores of an object that is made is made as well.
  IsStored-IsMade :
      (w : Wanted) (o new kept : Object)
      → IsController set
      → IsStable w
      → mutate set w o ≡ ok new
      → IsStored new kept
      → IsMade w kept
  IsStored-IsMade w o new kept controller stable h stored =
      elim (Result-cases (set o.owner_references)) [
        | inl (e, p) ↦ cc (h, mutate-err w o e p)
        | inr (refs, p) ↦
            let is_made = mutate-IsMade w o new controller stable h in
            let same : new ≡ made w o refs = cc (h, mutate-ok w o refs p) in
            record {
              labelled = stored.labels ∙ is_made.labelled;
              filled =
                  stable o.spec kept.spec
                    (subst (λ (n : Object). IsFilled n.spec kept.spec) same stored.spec);
              owned = subst (λ rs. set rs ≡ ok rs) (sym stored.owner_references) is_made.owned;
            }
      ]

  pub IsMade-mutate : (w : Wanted) (o : Object) → IsMade w o → mutate set w o ≡ ok o
  IsMade-mutate w o m = mutate-ok w o o.owner_references m.owned ∙ cc (m.labelled, m.filled)

  module _ {Cluster : Type 0} (api : Api Cluster) (server : IsServer api) where
    delete_found-only :
        (k other : Key) (r : Result ApiError Object) (c : Cluster)
        → key_eq k other ≡ false
        → api.get other (delete_found set api k r c).1 ≡ api.get other c
    delete_found-only k other (ok o) c h = server.removes_only k other c h
    delete_found-only k other (err not_found) c h = refl
    delete_found-only k other (err (api_failed cause)) c h = refl

    pub reconcile_or_delete-only :
        (w : Wanted) (k : Key) (c : Cluster)
        → key_eq w.key k ≡ false
        → api.get k (reconcile_or_delete set api w c).1 ≡ api.get k c
    unfolding reconcile_or_delete
    reconcile_or_delete-only w k c h =
        if_ind (λ (r : Option String × Cluster). api.get k r.1 ≡ api.get k c) w.needed _ _
          (λ p. server.stores_only w.key k (blank w.empty) (mutate set w) c h)
          (λ p. delete_found-only w.key k (api.get w.key c) c h)

    delete_found-IsSettled :
        (k : Key) (r : Result ApiError Object) (c : Cluster)
        → api.get k c ≡ r
        → (delete_found set api k r c).0 ≡ none
        → api.get k (delete_found set api k r c).1 ≡ err not_found
    delete_found-IsSettled k (ok o) c p h = server.removes k c h
    delete_found-IsSettled k (err not_found) c p h = p
    delete_found-IsSettled k (err (api_failed cause)) c p h = cc

    pub reconcile_or_delete-IsSettled :
        (w : Wanted) (c : Cluster)
        → IsController set
        → IsStable w
        → (reconcile_or_delete set api w c).0 ≡ none
        → IsSettled w (api.get w.key (reconcile_or_delete set api w c).1)
    unfolding reconcile_or_delete
    reconcile_or_delete-IsSettled w c controller stable =
        if_ind (λ (r : Option String × Cluster). r.0 ≡ none → IsSettled w (api.get w.key r.1))
          w.needed _ _
          (λ p h.
            let (o, kept, made_of, there, stored) =
              server.stores w.key (blank w.empty) (mutate set w) c h in
            to_settled w true
              (api.get w.key (api.create_or_update w.key (blank w.empty) (mutate set w) c).1) p
              (
                kept,
                there,
                IsStored-IsMade w (current (blank w.empty) (api.get w.key c)) o kept controller
                    stable made_of stored,
              ))
          (λ p h.
            to_settled w false (api.get w.key (delete_found set api w.key (api.get w.key c) c).1) p
              (delete_found-IsSettled w.key (api.get w.key c) c refl h))

    -- A second run leaves what is settled.
    pub reconcile_or_delete-again :
        (w : Wanted) (c : Cluster)
        → IsSettled w (api.get w.key c)
        → (reconcile_or_delete set api w c).0 ≡ none
        → api.get w.key (reconcile_or_delete set api w c).1 ≡ api.get w.key c
    unfolding reconcile_or_delete
    reconcile_or_delete-again w c settled =
        if_ind (λ (r : Option String × Cluster). r.0 ≡ none → api.get w.key r.1 ≡ api.get w.key c)
          w.needed _ _
          (λ p h.
            let (now, found, is_made) = of_settled w true (api.get w.key c) p settled in
            server.leaves w.key (blank w.empty) now (mutate set w) c found
              (IsMade-mutate w now is_made)
            ∙ sym found)
          (λ p h.
            let gone = of_settled w false (api.get w.key c) p settled in
            delete_found-IsSettled w.key (api.get w.key c) c refl h ∙ sym gone)

    -- Where no call fails for a reason of its own and the owner can be set, there is no error.
    pub reconcile_or_delete-total :
        (w : Wanted) (c : Cluster)
        → IsAvailable api
        → ((refs : List OwnerReference) → (after : List OwnerReference) × (set refs ≡ ok after))
        → (reconcile_or_delete set api w c).0 ≡ none
    unfolding reconcile_or_delete
    reconcile_or_delete-total w c available owns =
        if_ind (λ (r : Option String × Cluster). r.0 ≡ none) w.needed _ _
          (λ p.
            let o = current (blank w.empty) (api.get w.key c) in
            let (refs, q) = owns o.owner_references in
            available.writes w.key (blank w.empty) (made w o refs) (mutate set w) c
              (mutate-ok w o refs q))
          (λ p. elim (available.answers w.key c) [
            | inl q ↦ subst (λ r. (delete_found set api w.key r c).0 ≡ none) (sym q) refl
            | inr (o, q) ↦
                subst (λ r. (delete_found set api w.key r c).0 ≡ none) (sym q)
                  (available.deletes w.key o c q)
          ])
