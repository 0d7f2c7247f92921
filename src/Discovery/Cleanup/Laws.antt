-- ===== src/Discovery/Cleanup/Laws.antt =====
-- What is left in the cluster after a cleanup.
use dataprepper_operator.Base.{
  ◌⊎◌, subst, sym, ap, ◌≡◌, refl, ◌∙◌, arith, String, Bool, true, false, ◌&&◌, not, if◌then◌else◌,
  ◌==◌, string_eq, contains, Bool-cases, inl, inr, Option, none, some, List, [], ◌∷◌,
}
use dataprepper_operator.Base.Dict.{Dict, lookup, erase, lookup-insert, lookup-erase}
use dataprepper_operator.Base.Result.{ok}
use dataprepper_operator.Discovery.Sources.{DiscoveredSource}
use dataprepper_operator.Discovery.Rollout.{Api, Pipeline, discovery_label_key, orphaned_label_key}
use dataprepper_operator.Discovery.Cleanup.{
  orphan, CleanupError, delete_failed, orphan_failed, active_names, wrap, clean, or_stop, clean_all,
  cleanup_orphans,
}

-- An object after a successful Delete: it is gone, or, where it has finalizers, the server keeps it
-- with a deletion timestamp until they are removed.
abbrev pub IsLeaving : Option Pipeline → Type 0
IsLeaving after = (after ≡ none) ⊎ ((p : Pipeline) × (after ≡ some p) × (p.deleting ≡ true))

-- The effect of the calls that succeed, as the API server documents it.
pub record IsStore {Cluster : Type 0} (api : Api Cluster) : Type 0 where
  pub deleted :
      (name : String) (c : Cluster)
      → (api.delete name c).0 ≡ none
      → (k : String)
      → ((name == k) ≡ false → api.get k (api.delete name c).1 ≡ api.get k c)
        × ((name == k) ≡ true → IsLeaving (api.get k (api.delete name c).1))
  pub updated :
      (name : String) (p : Pipeline) (c : Cluster)
      → (api.update name p c).0 ≡ none
      → (k : String)
      → api.get k (api.update name p c).1 ≡ (if name == k then some p else api.get k c)

abbrev pub keys : Dict Pipeline → List String
keys [] = []
keys ((name, p) ∷ ps) = name ∷ keys ps

-- A listed pipeline that has no source.
abbrev pub is_orphan : List String → Dict Pipeline → String → Bool
is_orphan active items k = contains (keys items) k && not (contains active k)

module _ {Cluster : Type 0} (api : Api Cluster) (owner uid policy : String)
    (Left : Option Pipeline → Type 0) where
  -- Where a single call brings a pipeline to `Left` and keeps the others, so does the loop.
  abbrev Steps : Type 0
  Steps =
      (name : String) (p : Pipeline) (c : Cluster)
      → (clean api owner uid policy name p c).0 ≡ none
      → (k : String)
      → ((name == k) ≡ false → api.get k (clean api owner uid policy name p c).1 ≡ api.get k c)
        × ((name == k) ≡ true → Left (api.get k (clean api owner uid policy name p c).1))

  -- The effect at one name.
  abbrev Effect : (orphaned : Bool) (before after : Option Pipeline) → Type 0
  Effect orphaned before after =
      (orphaned ≡ false → after ≡ before) × (orphaned ≡ true → Left after)

  or_stop-none :
      (failure : Option CleanupError) (after : Cluster) (rest : Option CleanupError × Cluster)
      → (or_stop api owner uid policy failure after rest).0 ≡ none
      → (failure ≡ none) × (or_stop api owner uid policy failure after rest ≡ rest)
  or_stop-none none after rest h = (refl, refl)
  or_stop-none (some e) after rest h = cc

  skip-Effect :
      (active : List String) (items : Dict Pipeline) (name k : String) (p : Pipeline)
      (before after : Option Pipeline)
      → contains active name ≡ true
      → Effect (is_orphan active items k) before after
      → Effect (is_orphan active ((name, p) ∷ items) k) before after
  skip-Effect active items name k p before after kept h =
      (λ e. h.0 (ground arith), λ e. h.1 (ground arith))

  step-Effect :
      (active : List String) (items : Dict Pipeline) (name k : String) (p : Pipeline)
      (before between after : Option Pipeline)
      → contains active name ≡ false
      → ((name == k) ≡ false → between ≡ before) × ((name == k) ≡ true → Left between)
      → Effect (is_orphan active items k) between after
      → Effect (is_orphan active ((name, p) ∷ items) k) before after
  step-Effect active items name k p before between after gone step h = (
    λ e. h.0 (ground arith) ∙ step.0 (ground arith),
    λ e. elim (Bool-cases (is_orphan active items k)) [
      | inl later ↦ h.1 later
      | inr now ↦ subst Left (sym (h.0 now)) (step.1 (ground arith))
    ],
  )

  clean_all-Effect :
      Steps
      → (active : List String) (items : Dict Pipeline) (c : Cluster)
      → (clean_all api owner uid policy active items c).0 ≡ none
      → (k : String)
      → Effect
          (is_orphan active items k)
          (api.get k c)
          (api.get k (clean_all api owner uid policy active items c).1)
  unfolding clean_all
  clean_all-Effect steps active [] c h k = (λ e. refl, λ e. cc)
  clean_all-Effect steps active ((name, p) ∷ ps) c h k = elim (Bool-cases (contains active name)) [
    | inl kept ↦
        rw (clean_all, kept)
          (skip-Effect active ps name k p _ _ kept
            (clean_all-Effect steps active ps c (rw (clean_all, kept) at h) k))
    | inr gone ↦
        let (failure, after) = clean api owner uid policy name p c in
        let rest = clean_all api owner uid policy active ps after in
        let (fine, goes_on) = or_stop-none failure after rest (rw (clean_all, gone) at h) in
        rw (clean_all, gone, goes_on)
          (step-Effect active ps name k p (api.get k c) (api.get k after) (api.get k rest.1) gone
            (steps name p c fine k)
            (clean_all-Effect steps active ps after (rw goes_on at (rw (clean_all, gone) at h)) k))
  ]

module _ {Cluster : Type 0} (api : Api Cluster) (store : IsStore api) (owner uid : String) where
  wrap-none :
      (policy : String) (f : String → CleanupError) (e : Option String)
      → wrap api owner uid policy f e ≡ none
      → e ≡ none
  wrap-none policy f none h = refl
  wrap-none policy f (some e) h = cc

  delete_steps : Steps api owner uid "Delete" IsLeaving
  unfolding clean string_eq
  delete_steps name p c h k = store.deleted name c (wrap-none "Delete" (delete_failed name) _ h) k

  abbrev IsOrphaned : Option Pipeline → Type 0
  IsOrphaned after = (p : Pipeline) × (after ≡ some (orphan uid p))

  orphan_steps : Steps api owner uid "Orphan" IsOrphaned
  unfolding clean string_eq
  orphan_steps name p c h k =
      let written =
        store.updated name (orphan uid p) c (wrap-none "Orphan" (orphan_failed name) _ h) k in
      let chosen = λ (b : Bool). if b then some (orphan uid p) else api.get k c in
      (λ e. written ∙ ap chosen e, λ e. (p, written ∙ ap chosen e))

  orphan-labels :
      (p : Pipeline)
      → (lookup discovery_label_key (orphan uid p).labels ≡ none)
        × (lookup orphaned_label_key (orphan uid p).labels ≡ some "true")
  unfolding orphan string_eq
  orphan-labels p = (
    lookup-insert orphaned_label_key discovery_label_key "true" (erase discovery_label_key p.labels)
        ∙ lookup-erase discovery_label_key discovery_label_key p.labels,
    lookup-insert orphaned_label_key orphaned_label_key "true" (erase discovery_label_key p.labels),
  )

  -- A cleanup without an error leaves each pipeline that has a source, or is not the discovery's, as
  -- it was. With the policy "Delete" each of the others is gone or has a deletion timestamp, with "Orphan" they have lost the label by
  -- which the discovery finds them and carry the label of an orphan.
  pub cleanup_orphans_lem :
      (sources : List DiscoveredSource) (items : Dict Pipeline) (c : Cluster)
      → api.list discovery_label_key owner c ≡ ok items
      → (k : String)
      → ((cleanup_orphans api owner uid "Delete" sources c).0 ≡ none
          → (is_orphan (active_names owner sources) items k ≡ false
              → api.get k (cleanup_orphans api owner uid "Delete" sources c).1 ≡ api.get k c)
            × (is_orphan (active_names owner sources) items k ≡ true
                → IsLeaving (api.get k (cleanup_orphans api owner uid "Delete" sources c).1)))
        × ((cleanup_orphans api owner uid "Orphan" sources c).0 ≡ none
            → (is_orphan (active_names owner sources) items k ≡ false
                → api.get k (cleanup_orphans api owner uid "Orphan" sources c).1 ≡ api.get k c)
              × (is_orphan (active_names owner sources) items k ≡ true
                  → (p : Pipeline) × (api.get k (cleanup_orphans api owner uid "Orphan" sources c).1
                      ≡ some p)
                    × (lookup discovery_label_key p.labels ≡ none)
                    × (lookup orphaned_label_key p.labels ≡ some "true")))
  unfolding cleanup_orphans
  cleanup_orphans_lem sources items c listed k = (
    λ h.
        let effect =
          clean_all-Effect api owner uid "Delete" IsLeaving delete_steps active items c
            (rw (cleanup_orphans, listed) at h) k in
        rw (cleanup_orphans, listed) effect,
    λ h.
        let effect =
          clean_all-Effect api owner uid "Orphan" IsOrphaned orphan_steps active items c
            (rw (cleanup_orphans, listed) at h) k in
        rw (cleanup_orphans, listed)
          (
            effect.0,
            λ e.
                let (p, left) = effect.1 e in
                (orphan uid p, left, (orphan-labels p).0, (orphan-labels p).1),
          ),
  )
    where
      active : List String
      active = active_names owner sources
