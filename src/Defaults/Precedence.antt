-- ===== src/Defaults/Precedence.antt =====
-- Which setting wins: the one of the pipeline if it has one, and else the default.
use dataprepper_operator.Base.{
  ◌≡◌, refl, sym, subst, ap, ◌∙◌, arith, String, Option, none, some, List, [], string_eq, not, ◌&&◌,
  ◌==◌, if◌then◌else◌,
}
use dataprepper_operator.Api.Common.{SecretReference, OpenSearchSinkSpec, SinkSpec}
use dataprepper_operator.Api.Defaults.{DefaultKafkaSpec, DefaultSinkSpec, DataPrepperDefaultsSpec}
use dataprepper_operator.Api.Pipeline.{KafkaSourceSpec, PipelineDefinition, DataPrepperPipelineSpec}
use dataprepper_operator.Defaults.{
  merge_kafka, merge_kafka_source, merge_sink, merge_open_search_sink, merge_open_search,
  merge_spec, merge_with,
}
use dataprepper_operator.Defaults.Preference.{
  Prefers, Pairwise, OnBoth, map-Pairwise, or_default-Prefers, or_list-Prefers, Prefers-self,
  OnBoth-self, Pairwise-self,
}
use dataprepper_operator.Defaults.Laws.{merge_spec_idem}
use dataprepper_operator.Defaults.Shape.{
  merge_definition, merge_kafka_of, merge_sinks_of, merge_all-map,
}

-- The defaults for Kafka sources and for OpenSearch sinks.
abbrev servers_of : Option DefaultKafkaSpec → List String
servers_of none = []
servers_of (some d) = d.bootstrap_servers

abbrev credentials_of : Option DefaultKafkaSpec → Option SecretReference
credentials_of none = none
credentials_of (some d) = d.credentials_secret_ref

abbrev pub open_search_of : Option DefaultSinkSpec → Option OpenSearchSinkSpec
open_search_of none = none
open_search_of (some d) = d.open_search

abbrev hosts_of : Option OpenSearchSinkSpec → List String
hosts_of none = []
hosts_of (some o) = o.hosts

abbrev sink_credentials_of : Option OpenSearchSinkSpec → Option SecretReference
sink_credentials_of none = none
sink_credentials_of (some o) = o.credentials_secret_ref

-- What becomes of a Kafka source, a sink, a definition and a specification.
pub record IsMergedKafka (d : Option DefaultKafkaSpec) (k m : KafkaSourceSpec) : Type 0 where
  pub bootstrap_servers : Prefers [] k.bootstrap_servers (servers_of d) m.bootstrap_servers
  pub credentials_secret_ref :
      Prefers none k.credentials_secret_ref (credentials_of d) m.credentials_secret_ref
  pub rest : m ≡ record k {
    bootstrap_servers = m.bootstrap_servers;
    credentials_secret_ref = m.credentials_secret_ref;
  }

pub record IsMergedOpenSearch (d : Option OpenSearchSinkSpec) (o m : OpenSearchSinkSpec)
    : Type 0 where
  pub hosts : Prefers [] o.hosts (hosts_of d) m.hosts
  pub credentials_secret_ref :
      Prefers none o.credentials_secret_ref (sink_credentials_of d) m.credentials_secret_ref
  pub rest : m ≡ record o { hosts = m.hosts; credentials_secret_ref = m.credentials_secret_ref }

pub record IsMergedSink (d : Option OpenSearchSinkSpec) (s m : SinkSpec) : Type 0 where
  pub open_search : OnBoth (IsMergedOpenSearch d) s.open_search m.open_search
  pub rest : m ≡ record s { open_search = m.open_search }

pub record IsMergedDefinition (k : Option DefaultKafkaSpec) (o : Option OpenSearchSinkSpec)
    (p m : PipelineDefinition) : Type 0 where
  pub kafka : OnBoth (IsMergedKafka k) p.source.kafka m.source.kafka
  pub sink : Pairwise (IsMergedSink o) p.sink m.sink
  pub rest : m ≡ record p { source = record p.source { kafka = m.source.kafka }; sink = m.sink }

pub record IsMerged (d : DataPrepperDefaultsSpec) (s m : DataPrepperPipelineSpec) : Type 0 where
  pub image : Prefers "" s.image d.image m.image
  pub resources : Prefers none s.resources d.resources m.resources
  pub data_prepper_config :
      Prefers none s.data_prepper_config d.data_prepper_config m.data_prepper_config
  pub service_monitor : Prefers none s.service_monitor d.service_monitor m.service_monitor
  pub pipelines :
      Pairwise (IsMergedDefinition d.kafka (open_search_of d.sink)) s.pipelines m.pipelines
  pub rest : m ≡ record s {
    image = m.image;
    resources = m.resources;
    data_prepper_config = m.data_prepper_config;
    service_monitor = m.service_monitor;
    pipelines = m.pipelines;
  }

kafka_alone : (k : KafkaSourceSpec) → IsMergedKafka none k k
kafka_alone k = record {
  bootstrap_servers = Prefers-self [] k.bootstrap_servers;
  credentials_secret_ref = Prefers-self none k.credentials_secret_ref;
  rest = refl;
}

merge_kafka_source-IsMergedKafka :
    (d : DefaultKafkaSpec) (k : KafkaSourceSpec) → IsMergedKafka (some d) k (merge_kafka_source d k)
unfolding merge_kafka_source
merge_kafka_source-IsMergedKafka d k = record {
  bootstrap_servers = or_list-Prefers k.bootstrap_servers d.bootstrap_servers;
  credentials_secret_ref = or_default-Prefers k.credentials_secret_ref d.credentials_secret_ref;
  rest = refl;
}

open_search_merged :
    (d o : OpenSearchSinkSpec) → IsMergedOpenSearch (some d) o (merge_open_search_sink d o)
unfolding merge_open_search_sink
open_search_merged d o = record {
  hosts = or_list-Prefers o.hosts d.hosts;
  credentials_secret_ref = or_default-Prefers o.credentials_secret_ref d.credentials_secret_ref;
  rest = refl;
}

sink_with :
    (d : OpenSearchSinkSpec) (s : SinkSpec) (o : Option OpenSearchSinkSpec)
    → (let before = record s { open_search = o } in
        IsMergedSink (some d) before (merge_sink d before))
unfolding merge_sink
sink_with d s none = record { open_search = tt; rest = refl }
sink_with d s (some o) = record { open_search = open_search_merged d o; rest = refl }

sink_alone : (s : SinkSpec) → IsMergedSink none s s
sink_alone s = record {
  open_search =
      OnBoth-self (IsMergedOpenSearch none)
        (λ o. record {
          hosts = Prefers-self [] o.hosts;
          credentials_secret_ref = Prefers-self none o.credentials_secret_ref;
          rest = refl;
        })
        s.open_search;
  rest = refl;
}

-- The Kafka source of a definition.
kafka_with :
    (d : Option DefaultKafkaSpec) (p : PipelineDefinition) (k : Option KafkaSourceSpec)
    → (let before = record p { source = record p.source { kafka = k } } in
        let m = merge_kafka_of d before in
        OnBoth (IsMergedKafka d) k m.source.kafka
        × (m ≡ record before { source = record p.source { kafka = m.source.kafka } }))
unfolding merge_kafka
kafka_with none p k = (OnBoth-self (IsMergedKafka none) kafka_alone k, refl)
kafka_with (some d) p none = (tt, refl)
kafka_with (some d) p (some k) = (merge_kafka_source-IsMergedKafka d k, refl)

-- The sinks of a definition.
sinks_with :
    (o : Option OpenSearchSinkSpec) (d : Option DefaultSinkSpec) (p : PipelineDefinition)
    → open_search_of d ≡ o
    → Pairwise (IsMergedSink o) p.sink (merge_sinks_of d p).sink
      × (merge_sinks_of d p ≡ record p { sink = (merge_sinks_of d p).sink })
unfolding merge_open_search
sinks_with none none p h = (Pairwise-self (IsMergedSink none) sink_alone p.sink, refl)
sinks_with (some o) none p h = cc
sinks_with none (some d) p h =
    rw (merge_sinks_of, h) (Pairwise-self (IsMergedSink none) sink_alone p.sink, refl)
sinks_with (some o) (some d) p h =
    rw (merge_sinks_of, h)
      (
        map-Pairwise (IsMergedSink (some o)) (merge_sink o) (λ s. sink_with o s s.open_search)
            p.sink,
        refl,
      )

merge_definition-IsMergedDefinition :
    (k : Option DefaultKafkaSpec) (d : Option DefaultSinkSpec) (p : PipelineDefinition)
    → IsMergedDefinition k (open_search_of d) p (merge_definition k d p)
merge_definition-IsMergedDefinition k d p =
    let between = merge_kafka_of k p in
    let (kafka, source_only) = kafka_with k p p.source.kafka in
    let (sinks, sinks_only) = sinks_with (open_search_of d) d between refl in
    let m = merge_sinks_of d between in
    let same_kafka = ap (λ (q : PipelineDefinition). q.source.kafka) sinks_only in
    record {
      kafka = subst (λ x. OnBoth (IsMergedKafka k) p.source.kafka x) (sym same_kafka) kafka;
      sink =
          subst (λ ss. Pairwise (IsMergedSink (open_search_of d)) ss m.sink)
            (ap (λ (q : PipelineDefinition). q.sink) source_only) sinks;
      rest =
          sinks_only
          ∙ ap (λ (q : PipelineDefinition). record q { sink = m.sink }) source_only
          ∙ ap (λ x. record p { source = record p.source { kafka = x }; sink = m.sink })
              (sym same_kafka);
    }

image_prefers :
    (own default : String)
    → Prefers "" own default (if own == "" && not (default == "") then default else own)
image_prefers own default = (λ h. ground (arith, h), λ h. ground (arith, h))

-- With defaults at hand, each setting of a pipeline's own stays as it is, and each that is not set
-- becomes the default: the image, the resources, the Data Prepper configuration and the service
-- monitor, the bootstrap servers and the credentials of each Kafka source, the hosts and the
-- credentials of each OpenSearch sink. Nothing else changes, and without defaults nothing does.
-- Merging a second time changes nothing.
pub merge_spec-IsMerged :
    (d : DataPrepperDefaultsSpec) (s : DataPrepperPipelineSpec)
    → IsMerged d s (merge_spec (some d) s)
      × (merge_spec none s ≡ s)
      × (merge_spec (some d) (merge_spec (some d) s) ≡ merge_spec (some d) s)
unfolding merge_spec merge_with
merge_spec-IsMerged d s = (
  record {
    image = image_prefers s.image d.image;
    resources = or_default-Prefers s.resources d.resources;
    data_prepper_config = or_default-Prefers s.data_prepper_config d.data_prepper_config;
    service_monitor = or_default-Prefers s.service_monitor d.service_monitor;
    pipelines =
        subst (λ ps. Pairwise (IsMergedDefinition d.kafka (open_search_of d.sink)) s.pipelines ps)
          (sym (merge_all-map d.kafka d.sink s.pipelines))
          (map-Pairwise (IsMergedDefinition d.kafka (open_search_of d.sink))
            (merge_definition d.kafka d.sink) (merge_definition-IsMergedDefinition d.kafka d.sink)
            s.pipelines);
    rest = refl;
  },
  refl,
  merge_spec_idem (some d) s,
)
