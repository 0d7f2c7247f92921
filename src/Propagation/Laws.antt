-- ===== src/Propagation/Laws.antt =====
-- Every pipeline gets the revision of the defaults.
use dataprepper_operator.Base.{
  ◌≡◌, refl, sym, ◌∙◌, subst, ap, arith, String, true, false, if◌then◌else◌, if_ind, ◌==◌,
  string_eq, Option, none, some, List, [], ◌∷◌, All, Bool-cases, inl, inr,
}
use dataprepper_operator.Base.Dict.{Dict, lookup, lookup-insert}
use dataprepper_operator.Base.Result.{Result, ok, err}
use dataprepper_operator.Reconciler.Resources.{ApiError}
use dataprepper_operator.Propagation.{
  Annotated, Client, PropagateError, update_failed, defaults_revision_key, is_current, put_revision,
  update_read, touch, after_touch, touch_all,
}

-- What the reconciler relies on of the client.
pub record IsClient {Cluster : Type 0} (client : Client Cluster) : Type 0 where
  pub named :
      (name : String) (p : Annotated) (c : Cluster) → client.get name c ≡ ok p → p.name ≡ name
  pub stored :
      (p : Annotated) (c : Cluster)
      → (client.update p c).0 ≡ none
      → client.get p.name (client.update p c).1 ≡ ok p
  pub update_only :
      (p : Annotated) (name : String) (c : Cluster)
      → (p.name == name) ≡ false
      → client.get name (client.update p c).1 ≡ client.get name c
  pub retry_last :
      (f : Cluster → Option ApiError × Cluster) (c : Cluster)
      → (now : Cluster) × (client.retry_on_conflict f c ≡ f now)
  pub retry_only :
      (f : Cluster → Option ApiError × Cluster) (name : String) (c : Cluster)
      → ((now : Cluster) → client.get name (f now).1 ≡ client.get name now)
      → client.get name (client.retry_on_conflict f c).1 ≡ client.get name c

module _ {Cluster : Type 0} (client : Client Cluster) (is_client : IsClient client) where
  -- The pipeline of the name carries the revision.
  abbrev pub HasRevision : (revision name : String) → Cluster → Type 0
  HasRevision revision name c =
      (p : Annotated) × (m : Dict String) × (client.get name c ≡ ok p)
      × (p.annotations ≡ some m)
      × (lookup defaults_revision_key m ≡ some revision)

  lookup-put_revision :
      (revision : String) (m : Option (Dict String))
      → lookup defaults_revision_key (put_revision revision m) ≡ some revision
  lookup-put_revision revision none =
      ground (arith, lookup-insert defaults_revision_key defaults_revision_key revision [])
  lookup-put_revision revision (some m) =
      ground (arith, lookup-insert defaults_revision_key defaults_revision_key revision m)

  update_read-HasRevision :
      (revision name : String) (r : Result ApiError Annotated) (c : Cluster)
      → client.get name c ≡ r
      → (update_read client revision r c).0 ≡ none
      → HasRevision revision name (update_read client revision r c).1
  update_read-HasRevision revision name (err e) c found h = cc
  update_read-HasRevision revision name (ok p) c found h =
      let m = put_revision revision p.annotations in
      let next = record p { annotations = some m } in
      (
        next,
        m,
        subst (λ n. client.get n (client.update next c).1 ≡ ok next)
            (is_client.named name p c found) (is_client.stored next c h),
        refl,
        lookup-put_revision revision p.annotations,
      )

  update_read-only :
      (revision name other : String) (r : Result ApiError Annotated) (c : Cluster)
      → client.get name c ≡ r
      → (name == other) ≡ false
      → client.get other (update_read client revision r c).1 ≡ client.get other c
  update_read-only revision name other (err e) c found h = refl
  update_read-only revision name other (ok p) c found h =
      is_client.update_only (record p { annotations = some (put_revision revision p.annotations) })
        other c (ap (λ n. n == other) (is_client.named name p c found) ∙ h)

  touch-HasRevision :
      (revision name : String) (c : Cluster)
      → (touch client revision name c).0 ≡ none
      → HasRevision revision name (touch client revision name c).1
  unfolding touch
  touch-HasRevision revision name c =
      let f : Cluster → Option ApiError × Cluster =
        λ at. update_read client revision (client.get name at) at in
      let (now, last) = is_client.retry_last f c in
      subst (λ (r : Option ApiError × Cluster). r.0 ≡ none → HasRevision revision name r.1)
        (sym last) (update_read-HasRevision revision name (client.get name now) now refl)

  touch-only :
      (revision name other : String) (c : Cluster)
      → (name == other) ≡ false
      → client.get other (touch client revision name c).1 ≡ client.get other c
  unfolding touch
  touch-only revision name other c h =
      is_client.retry_only (λ now. update_read client revision (client.get name now) now) other c
        (λ now. update_read-only revision name other (client.get name now) now refl h)

  same_name : (a b : String) → (a == b) ≡ true → a ≡ b
  same_name a b h = ground arith

  -- A touched pipeline has the revision, and one that has it keeps it.
  touch-keeps :
      (revision name other : String) (c : Cluster)
      → (touch client revision name c).0 ≡ none
      → HasRevision revision other c
      → HasRevision revision other (touch client revision name c).1
  touch-keeps revision name other c done (p, m, found, annotated, current) =
      elim (Bool-cases (name == other)) [
        | inl same ↦
            subst (λ n. HasRevision revision n (touch client revision name c).1)
              (same_name name other same) (touch-HasRevision revision name c done)
        | inr apart ↦ (p, m, touch-only revision name other c apart ∙ found, annotated, current)
      ]

  after_touch_ind :
      (P : Option PropagateError × Cluster → Type 0) (name : String) (r : Option ApiError × Cluster)
      (rest : Cluster → Option PropagateError × Cluster)
      → (r.0 ≡ none → P (rest r.1))
      → ((e : PropagateError) → P (some e, r.1))
      → P (after_touch client name r rest)
  after_touch_ind P name (some e, c) rest next stop = stop (update_failed name e)
  after_touch_ind P name (none, c) rest next stop = next refl

  -- The two branches of the loop, and an error.
  touch_all_ind :
      (P : Option PropagateError × Cluster → Type 0) (revision : String) (p : Annotated)
      (ps : List Annotated) (c : Cluster)
      → (is_current revision p.annotations ≡ true → P (touch_all client revision ps c))
      → ((touch client revision p.name c).0 ≡ none
          → P (touch_all client revision ps (touch client revision p.name c).1))
      → ((e : PropagateError) → P (some e, (touch client revision p.name c).1))
      → P (touch_all client revision (p ∷ ps) c)
  unfolding touch_all
  touch_all_ind P revision p ps c skip next stop =
      if_ind P (is_current revision p.annotations) _ _ skip (λ old.
        after_touch_ind P p.name (touch client revision p.name c) (touch_all client revision ps)
          next stop)

  touch_all-keeps :
      (revision other : String) (ps : List Annotated) (c : Cluster)
      → HasRevision revision other c
      → (touch_all client revision ps c).0 ≡ none
      → HasRevision revision other (touch_all client revision ps c).1
  unfolding touch_all
  touch_all-keeps revision other [] c h = λ done. h
  touch_all-keeps revision other (p ∷ ps) c h =
      touch_all_ind
        (λ (r : Option PropagateError × Cluster). r.0 ≡ none → HasRevision revision other r.1)
        revision p ps c (λ current. touch_all-keeps revision other ps c h)
        (λ done.
          touch_all-keeps revision other ps (touch client revision p.name c).1
            (touch-keeps revision p.name other c done h))
        (λ e bad. cc)

  -- What the list says of the revision still holds.
  abbrev pub IsReady : (revision : String) → List Annotated → Cluster → Type 0
  IsReady revision ps c =
      All (λ p. is_current revision p.annotations ≡ true → HasRevision revision p.name c) ps

  IsReady-touch :
      (revision name : String) (ps : List Annotated) (c : Cluster)
      → (touch client revision name c).0 ≡ none
      → IsReady revision ps c
      → IsReady revision ps (touch client revision name c).1
  IsReady-touch revision name [] c done h = tt
  IsReady-touch revision name (p ∷ ps) c done h = (
    λ current. touch-keeps revision name p.name c done (h.0 current),
    IsReady-touch revision name ps c done h.1,
  )

  pub touch_all-HasRevision :
      (revision : String) (ps : List Annotated) (c : Cluster)
      → IsReady revision ps c
      → (touch_all client revision ps c).0 ≡ none
      → All (λ p. HasRevision revision p.name (touch_all client revision ps c).1) ps
  touch_all-HasRevision revision [] c h = λ done. tt
  touch_all-HasRevision revision (p ∷ ps) c h =
      touch_all_ind
        (λ (r : Option PropagateError × Cluster).
          r.0 ≡ none → All (λ q. HasRevision revision q.name r.1) (p ∷ ps))
        revision p ps c
        (λ current done. (
          touch_all-keeps revision p.name ps c (h.0 current) done,
          touch_all-HasRevision revision ps c h.1 done,
        ))
        (λ touched done.
          let next = (touch client revision p.name c).1 in
          (
            touch_all-keeps revision p.name ps next (touch-HasRevision revision p.name c touched)
                done,
            touch_all-HasRevision revision ps next (IsReady-touch revision p.name ps c touched h.1)
                done,
          ))
        (λ e bad. cc)

  pub touch_all-idle :
      (revision : String) (ps : List Annotated) (c : Cluster)
      → All (λ p. is_current revision p.annotations ≡ true) ps
      → touch_all client revision ps c ≡ (none, c)
  unfolding touch_all
  touch_all-idle revision [] c h = refl
  touch_all-idle revision (p ∷ ps) c h =
      ap
        (λ b.
          if b
          then touch_all client revision ps c
          else after_touch client p.name (touch client revision p.name c)
              (touch_all client revision ps))
        h.0
      ∙ touch_all-idle revision ps c h.1
