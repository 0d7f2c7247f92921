-- ===== src/Generator/Credentials/Laws.antt =====
-- What the environment takes from secrets, and which secrets are hashed.
use dataprepper_operator.Base.{
  ◌≡◌, refl, ◌⊎◌, ◌↔◌, String, false, Option, none, some, List, [], ◌∷◌, ◌++◌, contains,
  contains-append, ◌∈◌, string_eq, Distinct, arith,
}
use dataprepper_operator.Api.Common.{SinkSpec}
use dataprepper_operator.Api.Pipeline.{PipelineDefinition}
use dataprepper_operator.Generator.Credentials.{
  kafka_source_secret, s3_source_secret, kafka_sink_secret, open_search_sink_secret, s3_sink_secret,
  add_ref, add_sink_refs, add_refs, referenced_secrets,
}

-- The places where a definition names a secret for the credentials of a source or a sink. The
-- `dlqSecretRef` of an OpenSearch sink has no effect, as its documentation says, and is not one of
-- them.
abbrev pub SinkRefers : SinkSpec → String → Type 0
SinkRefers s n =
    (kafka_sink_secret s ≡ some n)
    ⊎ (s3_sink_secret s ≡ some n)
    ⊎ (open_search_sink_secret s ≡ some n)

abbrev pub SinksRefer : List SinkSpec → String → Type 0
SinksRefer [] n = ⊥
SinksRefer (s ∷ ss) n = SinkRefers s n ⊎ SinksRefer ss n

abbrev pub Refers : List PipelineDefinition → String → Type 0
Refers [] n = ⊥
Refers (p ∷ ps) n =
    (kafka_source_secret p.source ≡ some n)
    ⊎ (s3_source_secret p.source ≡ some n)
    ⊎ SinksRefer p.sink n
    ⊎ Refers ps n

add_ref_iff :
    (o : Option String) (refs : List String) (n : String)
    → (n ∈ add_ref o refs) ↔ ((o ≡ some n) ⊎ (n ∈ refs))
unfolding add_ref
add_ref_iff none refs n = ground arith
add_ref_iff (some m) refs n = ground (arith, contains-append refs (m ∷ []) n)

Distinct-snoc :
    (xs : List String) (x : String) → contains xs x ≡ false → Distinct xs → Distinct (xs ++ x ∷ [])
Distinct-snoc [] x new d = (refl, tt)
Distinct-snoc (y ∷ ys) x new d = ground (arith, Distinct-snoc ys x, contains-append ys (x ∷ []) y)

add_ref-Distinct :
    (o : Option String) (refs : List String) → Distinct refs → Distinct (add_ref o refs)
unfolding add_ref
add_ref-Distinct none refs d = d
add_ref-Distinct (some m) refs d = ground (arith, Distinct-snoc refs m)

add_sink_refs_lem :
    (ss : List SinkSpec) (refs : List String)
    → ((n : String) → (n ∈ add_sink_refs ss refs) ↔ (SinksRefer ss n ⊎ (n ∈ refs)))
      × (Distinct refs → Distinct (add_sink_refs ss refs))
unfolding add_sink_refs
add_sink_refs_lem [] refs = (λ n. ground arith, λ d. d)
add_sink_refs_lem (s ∷ ss) refs =
    let one = add_ref (open_search_sink_secret s) refs in
    let two = add_ref (s3_sink_secret s) one in
    let (members, distinct) = add_sink_refs_lem ss (add_ref (kafka_sink_secret s) two) in
    (
      λ n. ground (
        arith,
        members n,
        add_ref_iff (kafka_sink_secret s) two n,
        add_ref_iff (s3_sink_secret s) one n,
        add_ref_iff (open_search_sink_secret s) refs n,
      ),
      λ d. distinct (
          add_ref-Distinct (kafka_sink_secret s) two (
            add_ref-Distinct (s3_sink_secret s) one
              (add_ref-Distinct (open_search_sink_secret s) refs d))),
    )

add_refs_lem :
    (ps : List PipelineDefinition) (refs : List String)
    → ((n : String) → (n ∈ add_refs ps refs) ↔ (Refers ps n ⊎ (n ∈ refs)))
      × (Distinct refs → Distinct (add_refs ps refs))
unfolding add_refs
add_refs_lem [] refs = (λ n. ground arith, λ d. d)
add_refs_lem (p ∷ ps) refs =
    let one = add_ref (kafka_source_secret p.source) refs in
    let two = add_ref (s3_source_secret p.source) one in
    let (in_sinks, sinks_distinct) = add_sink_refs_lem p.sink two in
    let (members, distinct) = add_refs_lem ps (add_sink_refs p.sink two) in
    (
      λ n. ground (
        arith,
        members n,
        in_sinks n,
        add_ref_iff (s3_source_secret p.source) one n,
        add_ref_iff (kafka_source_secret p.source) refs n,
      ),
      λ d. distinct (
          sinks_distinct (
            add_ref-Distinct (s3_source_secret p.source) one
              (add_ref-Distinct (kafka_source_secret p.source) refs d))),
    )

-- `referencedSecrets` lists each secret that a Kafka or S3 source or a Kafka, S3 or OpenSearch sink
-- names for its credentials, once, and no other. The `dlqSecretRef` of an OpenSearch sink is not
-- among them.
pub referenced_secrets_lem :
    (ps : List PipelineDefinition)
    → Distinct (referenced_secrets ps) × ((n : String) → (n ∈ referenced_secrets ps) ↔ Refers ps n)
unfolding referenced_secrets
referenced_secrets_lem ps =
    let (members, distinct) = add_refs_lem ps [] in (distinct tt, λ n. ground (arith, members n))
