-- ===== src/Propagation/Runs.antt =====
-- A run of the defaults reconciler reaches every pipeline, and a second one has nothing to do.
use dataprepper_operator.Base.{
  ◌≡◌, ◌≢◌, refl, sym, ◌∙◌, subst, ap, arith, String, true, ◌==◌, string_eq, ◌∈◌, Option, none,
  some, List, [], ◌∷◌, All, All-mem, map,
}
use dataprepper_operator.Base.Dict.{Dict, lookup}
use dataprepper_operator.Base.Int.{ℤ}
use dataprepper_operator.Base.Result.{Result, ok}
use dataprepper_operator.Propagation.{
  Annotated, Client, PropagateError, defaults_revision_key, is_current, value_of, touch_all,
  propagate_to, propagate_found, propagate,
}
use dataprepper_operator.Propagation.Laws.{
  IsClient, HasRevision, IsReady, touch_all-HasRevision, touch_all-idle,
}

abbrev pub names_of : List Annotated → List String
names_of = map (λ p. p.name)

value_of-some : (o : Option String) (r : String) → r ≢ "" → value_of o ≡ r → o ≡ some r
value_of-some none r n h = absurd (n (sym h))
value_of-some (some v) r n h = ap some h

equal : (a b : String) → (a == b) ≡ true → a ≡ b
equal a b h = ground arith

same : (a : String) → (a == a) ≡ true
same a = ground arith

is_current-some :
    (revision : String) (annotations : Option (Dict String))
    → revision ≢ ""
    → is_current revision annotations ≡ true
    → (m : Dict String) × (annotations ≡ some m) × (lookup defaults_revision_key m ≡ some revision)
is_current-some revision none n h = cc
is_current-some revision (some m) n h =
    (m, refl, value_of-some (lookup defaults_revision_key m) revision n (equal _ revision h))

ok-same : {E : Type 0} (q p : Annotated) → Path (Result E Annotated) (ok q) (ok p) → q ≡ p
ok-same q p h = cc

module _ {Cluster : Type 0} (client : Client Cluster) (is_client : IsClient client) where
  -- The list shows the pipelines as they are.
  abbrev pub IsFresh : List Annotated → Cluster → Type 0
  IsFresh ps c = All (λ p. client.get p.name c ≡ ok p) ps

  IsFresh-IsReady :
      (revision : String) (ps : List Annotated) (c : Cluster)
      → revision ≢ ""
      → IsFresh ps c
      → IsReady client is_client revision ps c
  IsFresh-IsReady revision [] c n h = tt
  IsFresh-IsReady revision (p ∷ ps) c n h = (
    λ current.
        let (m, annotated, found) = is_current-some revision p.annotations n current in
        (p, m, h.0, annotated, found),
    IsFresh-IsReady revision ps c n h.1,
  )

  All-names :
      (H : String → Type 0) (ps : List Annotated) → All (λ p. H p.name) ps → All H (names_of ps)
  All-names H [] h = tt
  All-names H (p ∷ ps) h = (h.0, All-names H ps h.1)

  HasRevision-is_current :
      (revision : String) (q : Annotated) (c : Cluster)
      → client.get q.name c ≡ ok q
      → HasRevision client is_client revision q.name c
      → is_current revision q.annotations ≡ true
  HasRevision-is_current revision q c found (p, m, read, annotated, current) =
      ap (λ x. is_current revision x.annotations) (ok-same q p (sym found ∙ read))
      ∙ ap (is_current revision) annotated
      ∙ ap (λ o. value_of o == revision) current
      ∙ same revision

  All-is_current :
      (revision : String) (names : List String) (again : List Annotated) (c : Cluster)
      → All (λ n. HasRevision client is_client revision n c) names
      → IsFresh again c
      → All (λ q. q.name ∈ names) again
      → All (λ q. is_current revision q.annotations ≡ true) again
  All-is_current revision names [] c h fresh known = tt
  All-is_current revision names (q ∷ qs) c h fresh known = (
    HasRevision-is_current revision q c fresh.0
        (All-mem (λ n. HasRevision client is_client revision n c) names q.name h known.0),
    All-is_current revision names qs c h fresh.1 known.1,
  )

  module _ (decimal : ℤ → String) where
    propagate_lem :
        (c : Cluster) (generation : ℤ) (ps : List Annotated)
        → client.get_defaults c ≡ ok generation
        → client.list_pipelines c ≡ ok ps
        → propagate client decimal c ≡ touch_all client (decimal generation) ps c
    unfolding propagate
    propagate_lem c generation ps found listed =
        ap (λ r. propagate_found client decimal r c) found
        ∙ ap (λ r. propagate_to client (decimal generation) r c) listed

    -- A run without an error, over a list that shows the pipelines as they are: every listed pipeline
    -- carries the generation of the defaults afterwards.
    propagate-reaches :
        (c : Cluster) (generation : ℤ) (ps : List Annotated)
        → client.get_defaults c ≡ ok generation
        → client.list_pipelines c ≡ ok ps
        → IsFresh ps c
        → decimal generation ≢ ""
        → (propagate client decimal c).0 ≡ none
        → All
            (λ p.
              HasRevision client is_client
                (decimal generation)
                p.name
                (propagate client decimal c).1)
            ps
    propagate-reaches c generation ps found listed fresh n =
        let revision = decimal generation in
        subst
          (λ (r : Option PropagateError × Cluster).
            r.0 ≡ none → All (λ p. HasRevision client is_client revision p.name r.1) ps)
          (sym (propagate_lem c generation ps found listed))
          (touch_all-HasRevision client is_client revision ps c
            (IsFresh-IsReady revision ps c n fresh))

    -- Two runs for the same generation of the defaults, the first without an error, over lists that
    -- show the pipelines as they are, the second list with no new pipeline: after the first run every
    -- pipeline of its list carries the generation, and the second run ends without an error and
    -- leaves the cluster as it is.
    pub propagate-converges :
        (c : Cluster) (generation : ℤ) (ps again : List Annotated)
        → client.get_defaults c ≡ ok generation
        → client.list_pipelines c ≡ ok ps
        → IsFresh ps c
        → decimal generation ≢ ""
        → (propagate client decimal c).0 ≡ none
        → client.get_defaults (propagate client decimal c).1 ≡ ok generation
        → client.list_pipelines (propagate client decimal c).1 ≡ ok again
        → IsFresh again (propagate client decimal c).1
        → All (λ q. q.name ∈ names_of ps) again
        → (let after = (propagate client decimal c).1 in
            All (λ p. HasRevision client is_client (decimal generation) p.name after) ps
            × (propagate client decimal after ≡ (none, after)))
    propagate-converges c generation ps again found listed fresh n done still listed_again
          fresh_again known =
        let revision = decimal generation in
        let after = (propagate client decimal c).1 in
        let all = propagate-reaches c generation ps found listed fresh n done in
        (
          all,
          propagate_lem after generation again still listed_again
              ∙ touch_all-idle client is_client revision again after (
                  All-is_current revision (names_of ps) again after
                    (All-names (λ m. HasRevision client is_client revision m after) ps all)
                    fresh_again known),
        )
