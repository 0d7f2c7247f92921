-- ===== src/Discovery/Template/Laws.antt =====
-- Overrides and inheritance keep to their rules.
use dataprepper_operator.Base.{
  String, Option, none, some, ◌≡◌, refl, arith, string_eq, Option-cases, inl, inr, ap, List, [],
  ◌∷◌, map,
}
use dataprepper_operator.Api.Pipeline.{KafkaSourceSpec, DataPrepperPipelineSpec, PipelineDefinition}
use dataprepper_operator.Api.Webhook.{graph_def, graph_defs}
use dataprepper_operator.Api.Discovery.{KafkaDiscoverySpec}
use dataprepper_operator.Defaults.{or_list}
use dataprepper_operator.Defaults.Preference.{
  Prefers, Pairwise, OnBoth, map-Pairwise, or_default-Prefers, or_list-Prefers,
}
use dataprepper_operator.Defaults.Shape.{or_default_idem, map_idem}
use dataprepper_operator.Discovery.Template.{
  inherit_kafka_definition, inherit_kafka_discovery_config, inherit_kafka_source, override_text,
}

or_list_idem : {A : Type 0} (xs ds : List A) → or_list (or_list xs ds) ds ≡ or_list xs ds
or_list_idem [] [] = refl
or_list_idem [] (d ∷ ds) = refl
or_list_idem (x ∷ xs) ds = refl

inherit_kafka_definition_idem :
    (d : KafkaDiscoverySpec) (p : PipelineDefinition)
    → inherit_kafka_definition d (inherit_kafka_definition d p) ≡ inherit_kafka_definition d p
unfolding inherit_kafka_definition inherit_kafka_source
inherit_kafka_definition_idem d p = elim (Option-cases p.source.kafka) [
  | inl h ↦ ground (arith, h)
  | inr (k, h) ↦ ground (
    arith,
    h,
    or_list_idem k.bootstrap_servers d.bootstrap_servers,
    or_default_idem k.credentials_secret_ref d.credentials_secret_ref,
  )
]

graph_def-inherit :
    (d : KafkaDiscoverySpec) (p : PipelineDefinition)
    → graph_def (inherit_kafka_definition d p) ≡ graph_def p
unfolding graph_def inherit_kafka_definition
graph_def-inherit d p = ground arith

graph_defs-inherit :
    (d : KafkaDiscoverySpec) (ps : List PipelineDefinition)
    → graph_defs (map (inherit_kafka_definition d) ps) ≡ graph_defs ps
unfolding graph_defs
graph_defs-inherit d [] = refl
graph_defs-inherit d (p ∷ ps) = ground (arith, graph_def-inherit d p, graph_defs-inherit d ps)

-- What becomes of a Kafka source and of a definition.
pub record IsInheritedKafka (d : KafkaDiscoverySpec) (k m : KafkaSourceSpec) : Type 0 where
  pub bootstrap_servers : Prefers [] k.bootstrap_servers d.bootstrap_servers m.bootstrap_servers
  pub credentials_secret_ref :
      Prefers none k.credentials_secret_ref d.credentials_secret_ref m.credentials_secret_ref
  pub encryption_type : Prefers "" k.encryption_type d.encryption_type m.encryption_type
  pub rest : m ≡ record k {
    bootstrap_servers = m.bootstrap_servers;
    credentials_secret_ref = m.credentials_secret_ref;
    encryption_type = m.encryption_type;
  }

pub record IsInherited (d : KafkaDiscoverySpec) (p m : PipelineDefinition) : Type 0 where
  pub kafka : OnBoth (IsInheritedKafka d) p.source.kafka m.source.kafka
  pub rest : m ≡ record p { source = record p.source { kafka = m.source.kafka } }

override_text-Prefers : (own default : String) → Prefers "" own default (override_text own default)
override_text-Prefers own default = (λ h. ground (arith, h), λ h. ground (arith, h))

inherit_with :
    (d : KafkaDiscoverySpec) (p : PipelineDefinition) (k : Option KafkaSourceSpec)
    → (let before = record p { source = record p.source { kafka = k } } in
        IsInherited d before (inherit_kafka_definition d before))
unfolding inherit_kafka_definition inherit_kafka_source
inherit_with d p none = record { kafka = tt; rest = refl }
inherit_with d p (some k) = record {
  kafka = record {
    bootstrap_servers = or_list-Prefers k.bootstrap_servers d.bootstrap_servers;
    credentials_secret_ref = or_default-Prefers k.credentials_secret_ref d.credentials_secret_ref;
    encryption_type = override_text-Prefers k.encryption_type d.encryption_type;
    rest = refl;
  };
  rest = refl;
}

-- In each Kafka source of a template, the bootstrap servers, the credentials and the encryption type
-- stay as they are where they are set, and become those of the discovery where they are not. Nothing
-- else of the specification changes, the graph of the pipelines included, and filling in a second
-- time changes nothing.
pub inherit_kafka_discovery_config_lem :
    (d : KafkaDiscoverySpec) (s : DataPrepperPipelineSpec)
    → (let m = inherit_kafka_discovery_config d s in
        Pairwise (IsInherited d) s.pipelines m.pipelines
        × (m ≡ record s { pipelines = m.pipelines })
        × (inherit_kafka_discovery_config d m ≡ m)
        × (graph_defs m.pipelines ≡ graph_defs s.pipelines))
unfolding inherit_kafka_discovery_config
inherit_kafka_discovery_config_lem d s = (
  map-Pairwise (IsInherited d) (inherit_kafka_definition d) (λ p. inherit_with d p p.source.kafka)
      s.pipelines,
  refl,
  ap (λ ps. record s { pipelines = ps })
      (map_idem (inherit_kafka_definition d) s.pipelines (inherit_kafka_definition_idem d)),
  graph_defs-inherit d s.pipelines,
)
