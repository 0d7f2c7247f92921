-- ===== src/Defaults/Shape.antt =====
-- The two loops of the merge as one map over the definitions.
use dataprepper_operator.Base.{
  ◌≡◌, refl, ◌∙◌, ap, sym, Option, none, some, List, [], ◌∷◌, map, string_eq, arith, Option-cases,
  inl, inr,
}
use dataprepper_operator.Api.Common.{OpenSearchSinkSpec, SinkSpec}
use dataprepper_operator.Api.Defaults.{DefaultKafkaSpec, DefaultSinkSpec}
use dataprepper_operator.Api.Pipeline.{PipelineDefinition}
use dataprepper_operator.Defaults.{
  or_default, or_list, merge_kafka, merge_sink, merge_open_search, merge_all_kafka, merge_all_sinks,
}

pub map_idem {ℓ} :
    {A : Type ℓ} (f : A → A) (xs : List A) → ((x : A) → f (f x) ≡ f x) → map f (map f xs) ≡ map f xs
map_idem f [] h = refl
map_idem f (x ∷ xs) h = ground (arith, h x, map_idem f xs h)

or_list_idem {ℓ} : {A : Type ℓ} (xs ds : List A) → or_list (or_list xs ds) ds ≡ or_list xs ds
or_list_idem [] [] = refl
or_list_idem [] (d ∷ ds) = refl
or_list_idem (x ∷ xs) ds = refl

merge_kafka_idem :
    (d : DefaultKafkaSpec) (p : PipelineDefinition)
    → merge_kafka d (merge_kafka d p) ≡ merge_kafka d p
unfolding merge_kafka
merge_kafka_idem d p = elim (Option-cases p.source.kafka) [
  | inl e ↦ ground arith
  | inr (k, e) ↦ ground (arith, or_list_idem k.bootstrap_servers d.bootstrap_servers)
]

merge_sink_idem :
    (d : OpenSearchSinkSpec) (s : SinkSpec) → merge_sink d (merge_sink d s) ≡ merge_sink d s
unfolding merge_sink
merge_sink_idem d s = elim (Option-cases s.open_search) [
  | inl e ↦ ground arith
  | inr (o, e) ↦ ground (arith, or_list_idem o.hosts d.hosts)
]

-- What the two loops make of one definition.
abbrev pub merge_sinks_of : Option DefaultSinkSpec → PipelineDefinition → PipelineDefinition
merge_sinks_of none p = p
merge_sinks_of (some d) p = elim d.open_search [ none ↦ p | some o ↦ merge_open_search o p ]

abbrev pub merge_kafka_of : Option DefaultKafkaSpec → PipelineDefinition → PipelineDefinition
merge_kafka_of none p = p
merge_kafka_of (some d) p = merge_kafka d p

abbrev pub merge_definition :
    Option DefaultKafkaSpec → Option DefaultSinkSpec → PipelineDefinition → PipelineDefinition
merge_definition k s p = merge_sinks_of s (merge_kafka_of k p)

map_self {ℓ} : {A : Type ℓ} (xs : List A) → map (λ x. x) xs ≡ xs
map_self [] = refl
map_self (x ∷ xs) = rw (map_self xs)

merge_all_kafka-map :
    (k : Option DefaultKafkaSpec) (ps : List PipelineDefinition)
    → merge_all_kafka k ps ≡ map (merge_kafka_of k) ps
unfolding merge_all_kafka
merge_all_kafka-map none ps = sym (map_self ps)
merge_all_kafka-map (some d) ps = refl

merge_all_sinks-map :
    (s : Option DefaultSinkSpec) (ps : List PipelineDefinition)
    → merge_all_sinks s ps ≡ map (merge_sinks_of s) ps
unfolding merge_all_sinks
merge_all_sinks-map none ps = sym (map_self ps)
merge_all_sinks-map (some d) ps = elim (Option-cases d.open_search) [
  | inl e ↦ rw (e, merge_all_sinks, merge_sinks_of) (sym (map_self ps))
  | inr (o, e) ↦ rw (e, merge_all_sinks, merge_sinks_of) refl
]

map-map {ℓ} : {A : Type ℓ} (f g : A → A) (xs : List A) → map f (map g xs) ≡ map (λ x. f (g x)) xs
map-map f g [] = refl
map-map f g (x ∷ xs) = rw (map-map f g xs)

pub merge_all-map :
    (k : Option DefaultKafkaSpec) (s : Option DefaultSinkSpec) (ps : List PipelineDefinition)
    → merge_all_sinks s (merge_all_kafka k ps) ≡ map (merge_definition k s) ps
merge_all-map k s ps =
    merge_all_sinks-map s (merge_all_kafka k ps)
    ∙ ap (map (merge_sinks_of s)) (merge_all_kafka-map k ps)
    ∙ map-map (merge_sinks_of s) (merge_kafka_of k) ps

-- The sink loop leaves the source, and the Kafka loop leaves all but the source.
pub merge_sinks_of-source :
    (s : Option DefaultSinkSpec) (p : PipelineDefinition)
    → ((merge_sinks_of s p).source ≡ p.source) × ((merge_sinks_of s p).name ≡ p.name)
unfolding merge_open_search
merge_sinks_of-source none p = (refl, refl)
merge_sinks_of-source (some d) p = ground arith

merge_sinks_of_comm :
    (k : Option DefaultKafkaSpec) (s : Option DefaultSinkSpec) (p : PipelineDefinition)
    → merge_kafka_of k (merge_sinks_of s p) ≡ merge_sinks_of s (merge_kafka_of k p)
unfolding merge_kafka merge_open_search
merge_sinks_of_comm none s p = refl
merge_sinks_of_comm (some d) none p = refl
merge_sinks_of_comm (some d) (some e) p = ground arith

merge_sinks_of_idem :
    (s : Option DefaultSinkSpec) (p : PipelineDefinition)
    → merge_sinks_of s (merge_sinks_of s p) ≡ merge_sinks_of s p
unfolding merge_open_search
merge_sinks_of_idem none p = refl
merge_sinks_of_idem (some d) p = elim (Option-cases d.open_search) [
  | inl e ↦ ground arith
  | inr (o, e) ↦ ground (arith, map_idem (merge_sink o) p.sink (merge_sink_idem o))
]

merge_kafka_of_idem :
    (k : Option DefaultKafkaSpec) (p : PipelineDefinition)
    → merge_kafka_of k (merge_kafka_of k p) ≡ merge_kafka_of k p
merge_kafka_of_idem none p = refl
merge_kafka_of_idem (some d) p = merge_kafka_idem d p

pub merge_definition_idem :
    (k : Option DefaultKafkaSpec) (s : Option DefaultSinkSpec) (p : PipelineDefinition)
    → merge_definition k s (merge_definition k s p) ≡ merge_definition k s p
merge_definition_idem k s p =
    ap (merge_sinks_of s) (merge_sinks_of_comm k s (merge_kafka_of k p))
    ∙ merge_sinks_of_idem s (merge_kafka_of k (merge_kafka_of k p))
    ∙ ap (merge_sinks_of s) (merge_kafka_of_idem k p)

pub or_default_idem {ℓ} :
    {A : Type ℓ} (o d : Option A) → or_default (or_default o d) d ≡ or_default o d
or_default_idem none none = refl
or_default_idem none (some d) = refl
or_default_idem (some a) d = refl
