-- ===== src/Discovery/Rollout/Writes.antt =====
-- What the rollout writes into the cluster.
use dataprepper_operator.Base.{
  ◌≡◌, refl, ◌∙◌, subst, arith, ℕ, suc, leb, String, Bool, true, false, ◌==◌, string_eq, Bool-cases,
  Option-cases, ◌⊎◌, inl, inr, is_set, Option, none, some, List, [], ◌∷◌, ◌++◌, ◌||◌, length,
}
use dataprepper_operator.Base.Dict.{Dict, copy_into, lookup, insert, lookup-insert}
use dataprepper_operator.Base.Result.{Result, ok, err, Result-cases}
use dataprepper_operator.Discovery.Rollout.{
  Api, Owner, OwnerReference, ReconcileError, Pipeline, Desired, Progress, mutate, on_write,
  create_missing, create_failed, stage, roll_out, reconcile_pipelines, to_update,
  max_updates_per_cycle, Orders, update_batch, update_failed, template_generation_key,
  discovery_label_key,
}

-- The pair is one of the entries.
abbrev pub Among : String → Desired → Dict Desired → Type 0
Among k d [] = ⊥
Among k d ((name, e) ∷ ds) = ((name ≡ k) × (e ≡ d)) ⊎ Among k d ds

-- The object has the specification and the hash, and the discovery's label.
pub record IsWritten (owner : Owner) (d : Desired) (p : Pipeline) : Type 0 where
  pub spec : p.spec ≡ d.spec
  pub hash : lookup template_generation_key p.annotations ≡ some d.hash
  pub label : lookup discovery_label_key p.labels ≡ some owner.name

-- A call of CreateOrUpdate without an error stores what the function makes of some object, and
-- touches no other.
pub record IsWriter {Cluster : Type 0} (api : Api Cluster) : Type 0 where
  pub stored :
      (name : String) (f : Pipeline → Result String Pipeline) (c : Cluster)
      → (api.create_or_update name f c).0 ≡ none
      → (before p : Pipeline) × (f before ≡ ok p)
        × (api.get name (api.create_or_update name f c).1 ≡ some p)
  pub others :
      (name : String) (f : Pipeline → Result String Pipeline) (c : Cluster)
      → (api.create_or_update name f c).0 ≡ none
      → (k : String) → (name == k) ≡ false
      → api.get k (api.create_or_update name f c).1 ≡ api.get k c

abbrev mutated : Owner → Desired → List OwnerReference → Pipeline → Pipeline
mutated owner d refs p = record p {
  labels =
      insert discovery_label_key owner.name
        (insert "app.kubernetes.io/managed-by" "dataprepper-operator" p.labels);
  annotations = insert template_generation_key d.hash p.annotations;
  spec = d.spec;
  owner_references = refs;
}

mutated-IsWritten :
    (owner : Owner) (d : Desired) (refs : List OwnerReference) (p : Pipeline)
    → IsWritten owner d (mutated owner d refs p)
mutated-IsWritten owner d refs p = record {
  spec = refl;
  hash =
      ground
        (arith, lookup-insert template_generation_key template_generation_key d.hash p.annotations);
  label = ground (
    arith,
    lookup-insert discovery_label_key discovery_label_key owner.name
        (insert "app.kubernetes.io/managed-by" "dataprepper-operator" p.labels),
  );
}

mutate-IsWritten :
    (owner : Owner) (d : Desired) (before p : Pipeline)
    → mutate owner d before ≡ ok p
    → IsWritten owner d p
unfolding mutate
mutate-IsWritten owner d before p h =
    elim (Result-cases (owner.set_controller_reference before.owner_references)) [
      | inl (e, bad) ↦ let never : err e ≡ ok p = rw (mutate, bad) at h in cc
      | inr (refs, fine) ↦
          let made : ok (mutated owner d refs before) ≡ ok p = rw (mutate, fine) at h in
          let same : mutated owner d refs before ≡ p = ground arith in
          subst (IsWritten owner d) same (mutated-IsWritten owner d refs before)
    ]

module _ {Cluster : Type 0} (api : Api Cluster) (owner : Owner) (writer : IsWriter api) where
  -- What a loop over the entries may do to the object of a name.
  abbrev Effect : Dict Desired → String → (before after : Option Pipeline) → Type 0
  Effect ds k before after =
      (after ≡ before)
      ⊎ ((p : Pipeline) × (d : Desired) × Among k d ds × (after ≡ some p) × IsWritten owner d p)

  on_write-none :
      (fail : String → ReconcileError) (n : ℕ) (after : Cluster) (failure : Option String)
      (rest : Progress Cluster)
      → (on_write api owner fail n after failure rest).error ≡ none
      → (failure ≡ none) × (on_write api owner fail n after failure rest ≡ rest)
  on_write-none fail n after none rest h = (refl, refl)
  on_write-none fail n after (some e) rest h = cc

  later :
      (ds : Dict Desired) (name k : String) (d : Desired) (before between after : Option Pipeline)
      → Effect ((name, d) ∷ []) k before between
      → Effect ds k between after
      → Effect ((name, d) ∷ ds) k before after
  later ds name k d before between after first (inr (p, e, among, is, written)) =
      inr (p, e, inr among, is, written)
  later ds name k d before between after (inl kept) (inl same) = inl (same ∙ kept)
  later ds name k d before between after (inr (p, e, inl this, is, written)) (inl same) =
      inr (p, e, inl this, same ∙ is, written)
  later ds name k d before between after (inr (p, e, inr nothing, is, written)) (inl same) =
      elim nothing [ ]

  write-Effect :
      (name : String) (d : Desired) (c : Cluster)
      → (api.create_or_update name (mutate owner d) c).0 ≡ none
      → (k : String)
      → Effect
          ((name, d) ∷ [])
          k
          (api.get k c)
          (api.get k (api.create_or_update name (mutate owner d) c).1)
  write-Effect name d c h k = elim (string_eq.dec name k) [
    | yes same ↦
        let (before, p, made, is) = writer.stored name (mutate owner d) c h in
        inr (
          p,
          d,
          inl (same, refl),
          subst (λ j. api.get j (api.create_or_update name (mutate owner d) c).1 ≡ some p) same is,
          mutate-IsWritten owner d before p made,
        )
    | no differ ↦ inl (writer.others name (mutate owner d) c h k (ground arith))
  ]

  update_batch-Effect :
      (batch : ℕ) (ds : Dict Desired) (n : ℕ) (c : Cluster)
      → (update_batch api owner batch ds n c).error ≡ none
      → (k : String)
      → Effect ds k (api.get k c) (api.get k (update_batch api owner batch ds n c).cluster)
  unfolding update_batch
  update_batch-Effect batch [] n c h k = inl refl
  update_batch-Effect batch ((name, d) ∷ ds) n c h k = elim (Bool-cases (leb batch n)) [
    | inl full ↦ rw (update_batch, full) (inl refl)
    | inr room ↦
        let (failure, after) = api.create_or_update name (mutate owner d) c in
        let rest = update_batch api owner batch ds (suc n) after in
        let (fine, goes_on) =
          on_write-none (update_failed name) n after failure rest (rw (update_batch, room) at h) in
        rw (update_batch, room, goes_on)
          (later ds name k d (api.get k c) (api.get k after) (api.get k rest.cluster)
            (write-Effect name d c fine k)
            (update_batch-Effect batch ds (suc n) after
              (rw goes_on at (rw (update_batch, room) at h)) k))
  ]

  create_missing-Effect :
      (limit : ℕ) (existing : Dict Pipeline) (ds : Dict Desired) (n : ℕ) (c : Cluster)
      → (create_missing api owner limit existing ds n c).error ≡ none
      → (k : String)
      → Effect ds k
          (api.get k c)
          (api.get k (create_missing api owner limit existing ds n c).cluster)
  unfolding create_missing
  create_missing-Effect limit existing [] n c h k = inl refl
  create_missing-Effect limit existing ((name, d) ∷ ds) n c h k =
      elim (Bool-cases (is_set (lookup name existing) || leb limit n)) [
        | inl skip ↦
            rw (create_missing, skip)
              (later ds name k d (api.get k c) (api.get k c) _ (inl refl)
                (create_missing-Effect limit existing ds n c (rw (create_missing, skip) at h) k))
        | inr room ↦
            let (failure, after) = api.create_or_update name (mutate owner d) c in
            let rest = create_missing api owner limit existing ds (suc n) after in
            let (fine, goes_on) =
              on_write-none (create_failed name) n after failure rest
                (rw (create_missing, room) at h) in
            rw (create_missing, room, goes_on)
              (later ds name k d (api.get k c) (api.get k after) (api.get k rest.cluster)
                (write-Effect name d c fine k)
                (create_missing-Effect limit existing ds (suc n) after
                  (rw goes_on at (rw (create_missing, room) at h)) k))
      ]

  stage-Effect :
      (orders : Orders) (existing : Dict Pipeline) (unhealthy : Bool) (created : ℕ)
      (todo : Dict Desired) (c : Cluster)
      → (stage api owner orders existing unhealthy created todo c).error ≡ none
      → (k : String)
      → Effect todo k
          (api.get k c)
          (api.get k (stage api owner orders existing unhealthy created todo c).cluster)
  unfolding stage
  stage-Effect orders existing u created [] c h k = inl refl
  stage-Effect orders existing true created (t ∷ ts) c h k = inl refl
  stage-Effect orders existing false created (t ∷ ts) c h k =
      update_batch-Effect (max_updates_per_cycle (length existing)) (t ∷ ts) 0 c h k

  Among-append_left :
      (k : String) (d : Desired) (ds es : Dict Desired) → Among k d ds → Among k d (ds ++ es)
  Among-append_left k d [] es nothing = elim nothing [ ]
  Among-append_left k d (x ∷ ds) es (inl this) = inl this
  Among-append_left k d (x ∷ ds) es (inr more) = inr (Among-append_left k d ds es more)

  Among-append_right :
      (k : String) (d : Desired) (ds es : Dict Desired) → Among k d es → Among k d (ds ++ es)
  Among-append_right k d [] es h = h
  Among-append_right k d (x ∷ ds) es h = inr (Among-append_right k d ds es h)

  both :
      (ds es : Dict Desired) (k : String) (before between after : Option Pipeline)
      → Effect ds k before between
      → Effect es k between after
      → Effect (ds ++ es) k before after
  both ds es k before between after first (inr (p, d, among, is, written)) =
      inr (p, d, Among-append_right k d ds es among, is, written)
  both ds es k before between after (inl kept) (inl same) = inl (same ∙ kept)
  both ds es k before between after (inr (p, d, among, is, written)) (inl same) =
      inr (p, d, Among-append_left k d ds es among, same ∙ is, written)

  -- With an API server whose successful writes store what they are given and touch no other object,
  -- a cycle without an error leaves each object as it was, or it is a desired pipeline, and the
  -- object has its specification, its hash and the label of the discovery.
  pub reconcile_pipelines-writes :
      (orders : Orders) (limit : ℕ) (desired : Dict Desired) (items : Dict Pipeline) (c : Cluster)
      → api.list discovery_label_key owner.name c ≡ ok items
      → (reconcile_pipelines api owner orders limit (ok desired) c).error ≡ none
      → (k : String)
      → (let after =
            api.get k (reconcile_pipelines api owner orders limit (ok desired) c).cluster in
          (after ≡ api.get k c)
          ⊎ ((p : Pipeline) × (d : Desired) × Among k d (
                orders.creating desired ++ to_update (copy_into [] items) (orders.updating desired))
              × (after ≡ some p)
              × IsWritten owner d p))
  unfolding reconcile_pipelines roll_out
  reconcile_pipelines-writes orders limit desired items c listed h k =
      let existing = copy_into [] items in
      let done = create_missing api owner limit existing (orders.creating desired) 0 c in
      elim (Option-cases done.error) [
        | inl fine ↦
            rw (reconcile_pipelines, listed, fine)
              (both (orders.creating desired) _ k (api.get k c) (api.get k done.cluster) _
                (create_missing-Effect limit existing (orders.creating desired) 0 c fine k)
                (stage-Effect orders existing _ _ _ done.cluster
                  (rw (reconcile_pipelines, listed, fine) at h) k))
        | inr (e, broken) ↦
            let never : some e ≡ none = rw (reconcile_pipelines, listed, broken) at h in cc
      ]
