-- ===== src/Api/Webhook/Unions.antt =====
-- The discriminated unions of the API, and that the webhook's counts decide them.
use dataprepper_operator.Base.{◌≤◌, ◌≡◌, refl, ◌↔◌, true, Option, none, some, arith, is_set}
use dataprepper_operator.Api.Common.{
  SinkSpec, OpenSearchSinkSpec, PipelineConnectorSinkSpec, S3SinkSpec, KafkaSinkSpec,
  StdoutSinkSpec,
}
use dataprepper_operator.Api.Pipeline.{
  SourceSpec, CodecSpec, KafkaSourceSpec, HttpSourceSpec, OTelSourceSpec, S3SourceSpec,
  PipelineConnectorSourceSpec,
}
use dataprepper_operator.Api.Webhook.{count_source_types, count_sink_types, count_codec_types}

abbrev pub no_source : SourceSpec
no_source = record { kafka = none; http = none; otel = none; s3 = none; pipeline = none }

-- One of the five sources is set, and it alone.
pub data IsOneSource : SourceSpec → Type 0 where
  kafka : (k : KafkaSourceSpec) → IsOneSource (record no_source { kafka = some k })
  http : (h : HttpSourceSpec) → IsOneSource (record no_source { http = some h })
  otel : (o : OTelSourceSpec) → IsOneSource (record no_source { otel = some o })
  s3 : (s : S3SourceSpec) → IsOneSource (record no_source { s3 = some s })
  pipeline :
      (p : PipelineConnectorSourceSpec) → IsOneSource (record no_source { pipeline = some p })

abbrev pub no_sink_type : SinkSpec
no_sink_type = record {
  open_search = none;
  pipeline = none;
  s3 = none;
  kafka = none;
  stdout = none;
}

pub data IsOneSink : SinkSpec → Type 0 where
  open_search : (o : OpenSearchSinkSpec) → IsOneSink (record no_sink_type { open_search = some o })
  pipeline : (p : PipelineConnectorSinkSpec) → IsOneSink (record no_sink_type { pipeline = some p })
  s3 : (s : S3SinkSpec) → IsOneSink (record no_sink_type { s3 = some s })
  kafka : (k : KafkaSinkSpec) → IsOneSink (record no_sink_type { kafka = some k })
  stdout : (t : StdoutSinkSpec) → IsOneSink (record no_sink_type { stdout = some t })

IsOneSource-count : {s : SourceSpec} → IsOneSource s → count_source_types s ≡ 1
unfolding count_source_types
IsOneSource-count (kafka k) = refl
IsOneSource-count (http h) = refl
IsOneSource-count (otel o) = refl
IsOneSource-count (s3 s) = refl
IsOneSource-count (pipeline p) = refl

count-IsOneSource_parts :
    (k : Option KafkaSourceSpec) (h : Option HttpSourceSpec) (o : Option OTelSourceSpec)
    (s : Option S3SourceSpec) (p : Option PipelineConnectorSourceSpec)
    → count_source_types (record { kafka = k; http = h; otel = o; s3 = s; pipeline = p }) ≡ 1
    → IsOneSource (record { kafka = k; http = h; otel = o; s3 = s; pipeline = p })
unfolding count_source_types
count-IsOneSource_parts (some k) none none none none e = kafka k
count-IsOneSource_parts none (some h) none none none e = http h
count-IsOneSource_parts none none (some o) none none e = otel o
count-IsOneSource_parts none none none (some s) none e = s3 s
count-IsOneSource_parts none none none none (some p) e = pipeline p
count-IsOneSource_parts k h o s p e = absurd (omega arith)

pub count_source_types_iff : (s : SourceSpec) → (count_source_types s ≡ 1) ↔ IsOneSource s
count_source_types_iff s =
    (count-IsOneSource_parts s.kafka s.http s.otel s.s3 s.pipeline, IsOneSource-count)

IsOneSink-count : {s : SinkSpec} → IsOneSink s → count_sink_types s ≡ 1
unfolding count_sink_types
IsOneSink-count (open_search o) = refl
IsOneSink-count (pipeline p) = refl
IsOneSink-count (s3 s) = refl
IsOneSink-count (kafka k) = refl
IsOneSink-count (stdout t) = refl

count-IsOneSink_parts :
    (o : Option OpenSearchSinkSpec) (p : Option PipelineConnectorSinkSpec) (s : Option S3SinkSpec)
    (k : Option KafkaSinkSpec) (t : Option StdoutSinkSpec)
    → count_sink_types (record { open_search = o; pipeline = p; s3 = s; kafka = k; stdout = t }) ≡ 1
    → IsOneSink (record { open_search = o; pipeline = p; s3 = s; kafka = k; stdout = t })
unfolding count_sink_types
count-IsOneSink_parts (some o) none none none none e = open_search o
count-IsOneSink_parts none (some p) none none none e = pipeline p
count-IsOneSink_parts none none (some s) none none e = s3 s
count-IsOneSink_parts none none none (some k) none e = kafka k
count-IsOneSink_parts none none none none (some t) e = stdout t
count-IsOneSink_parts o p s k t e = absurd (omega arith)

pub count_sink_types_iff : (s : SinkSpec) → (count_sink_types s ≡ 1) ↔ IsOneSink s
count_sink_types_iff s =
    (count-IsOneSink_parts s.open_search s.pipeline s.s3 s.kafka s.stdout, IsOneSink-count)

-- No two codecs are set.
pub record IsAtMostOneCodec (c : CodecSpec) : Type 0 where
  pub json_alone :
      is_set c.json ≡ true
      → (c.csv ≡ none) × (c.newline ≡ none) × (c.parquet ≡ none) × (c.avro ≡ none)
  pub csv_alone : is_set c.csv ≡ true → (c.newline ≡ none) × (c.parquet ≡ none) × (c.avro ≡ none)
  pub newline_alone : is_set c.newline ≡ true → (c.parquet ≡ none) × (c.avro ≡ none)
  pub parquet_alone : is_set c.parquet ≡ true → c.avro ≡ none

pub count_codec_types_iff : (c : CodecSpec) → (count_codec_types c ≤ 1) ↔ IsAtMostOneCodec c
unfolding count_codec_types
count_codec_types_iff c = ground arith
