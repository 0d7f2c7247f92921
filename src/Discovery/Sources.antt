-- ===== src/Discovery/Sources.antt =====
-- internal/discovery/kafka.go and internal/discovery/s3.go.
-- `glob` is filepath.Match without its error text, `list_prefixes` the S3 client's call, and a Kafka
-- client answers with the map of its topics, or an error.
pub mod Laws
pub mod Listing
pub mod Prefixes
use dataprepper_operator.Base.{
  ℕ, zero, suc, ◌-◌, String, ◌<>◌, Bool, true, false, ◌||◌, not, if◌then◌else◌, ◌==◌, string_eq,
  Option, none, some, List, [], ◌∷◌, ◌++◌,
}
use Prim.Native.String.{compare}
use Prim.Native.Nat.{Ordering}
use dataprepper_operator.Base.Int.{ℤ, pos, negsuc}
use dataprepper_operator.Base.Dict.{Dict, lookup}
use dataprepper_operator.Base.Result.{Result, ok, err, ◌>>=◌}

pub data DiscoveryError : Type 0 where
  no_client : DiscoveryError
  list_topics list_prefixes_failed : String → DiscoveryError

-- The metadata of a Kafka topic is its partitions, that of an S3 prefix its place and its queue.
pub data Metadata : Type 0 where
  topic : (partitions : ℤ) → Metadata
  bucket_prefix : (bucket prefix region : String) (sqs_queue_url : Option String) → Metadata

pub record DiscoveredSource : Type 0 where
  pub name : String
  pub metadata : Metadata

-- `strings.HasPrefix`, `strings.TrimSuffix` and `strings.ReplaceAll`.
pub record Strings : Type 0 where
  pub has_prefix : String → String → Bool
  pub trim_suffix : String → String → String
  pub replace_all : String → String → String → String

abbrev precedes : Ordering → Bool
precedes Ordering.gt = false
precedes _ = true

unfoldable pub insert_source : DiscoveredSource → List DiscoveredSource → List DiscoveredSource
insert_source s [] = s ∷ []
insert_source s (t ∷ ts) =
    let rest = insert_source s ts in
    if precedes (compare s.name t.name) then s ∷ t ∷ ts else t ∷ rest

-- `slices.SortFunc` by name. It promises no order for sources of the same name.
unfoldable pub sort_sources : List DiscoveredSource → List DiscoveredSource
unfolding insert_source
sort_sources [] = []
sort_sources (s ∷ ss) = insert_source s (sort_sources ss)

module _ (glob : String → String → Option Bool) where
  -- A pattern that is not well formed is passed over.
  abbrev pub matches : String → String → Bool
  matches pattern name = elim (glob pattern name) [ none ↦ false | some matched ↦ matched ]

  unfoldable pub is_excluded : List String → String → Bool
  is_excluded [] name = false
  is_excluded (p ∷ ps) name = matches p name || is_excluded ps name

pub record KafkaDiscoverer : Type 0 where
  pub client : Option (Result String (Dict ℤ))
  pub prefix : String
  pub exclude_patterns : List String

pub record SqsQueueMapping : Type 0 where
  pub queue_url_template : String
  pub overrides : Dict String

-- The client's `ListPrefixes`, and the error of the context before each call, by the prefix.
pub record S3Client : Type 0 where
  pub list_prefixes : (bucket prefix delimiter : String) → Result String (List String)
  pub ctx_err : String → Option String

pub record S3Discoverer : Type 0 where
  pub client : Option S3Client
  pub bucket : String
  pub region : String
  pub prefix : String
  pub depth : ℤ
  pub exclude_patterns : List String
  pub sqs_mapping : Option SqsQueueMapping

module _ (client : S3Client) (bucket : String) where
  unfoldable pub list_prefixes : String → Result DiscoveryError (List String)
  list_prefixes prefix = elim (client.list_prefixes bucket prefix "/") [
    | ok found ↦ ok found
    | err e ↦ err (list_prefixes_failed e)
  ]

  -- The listing of each of the prefixes, one after the other.
  abbrev pub append_each :
      (String → Result DiscoveryError (List String))
      → List String
      → Result DiscoveryError (List String)
  append_each list [] = ok []
  append_each list (p ∷ ps) = list p >>= λ sub. append_each list ps >>= λ rest. ok (sub ++ rest)

  unfoldable pub list_checked : String → Result DiscoveryError (List String)
  unfolding list_prefixes
  list_checked prefix = elim (client.ctx_err prefix) [
    | some e ↦ err (list_prefixes_failed e)
    | none ↦ list_prefixes prefix
  ]

  -- The number is the depth less one.
  unfoldable pub list_at_depth : ℕ → String → Result DiscoveryError (List String)
  unfolding list_checked
  list_at_depth zero prefix = list_checked prefix
  list_at_depth (suc n) prefix = list_checked prefix >>= append_each (list_at_depth n)

-- `max(d.Depth, 1) - 1`
abbrev pub depth_below : ℤ → ℕ
depth_below (pos n) = n - 1
depth_below (negsuc n) = 0

module _ (text : Strings) (glob : String → String → Option Bool) where
  unfoldable pub keep_topics : KafkaDiscoverer → Dict ℤ → List DiscoveredSource
  unfolding is_excluded
  keep_topics d [] = []
  keep_topics d ((name, partitions) ∷ topics) =
      let rest = keep_topics d topics in
      if not (text.has_prefix name d.prefix) || is_excluded glob d.exclude_patterns name
      then rest
      else record { name = name; metadata = topic partitions } ∷ rest

  unfoldable pub discover_kafka : KafkaDiscoverer → Result DiscoveryError (List DiscoveredSource)
  unfolding keep_topics sort_sources
  discover_kafka d = elim d.client [
    | none ↦ err no_client
    | some (err e) ↦ err (list_topics e)
    | some (ok topics) ↦ ok (sort_sources (keep_topics d topics))
  ]

  unfoldable pub prefix_to_name : String → String
  prefix_to_name prefix = text.replace_all (text.trim_suffix prefix "/") "/" "-"

  unfoldable pub resolve_sqs_queue : SqsQueueMapping → String → String
  unfolding prefix_to_name
  resolve_sqs_queue mapping prefix = elim (lookup prefix mapping.overrides) [
    | some url ↦ url
    | none ↦
        if not (mapping.queue_url_template == "")
        then text.replace_all mapping.queue_url_template "{{prefix}}" (prefix_to_name prefix)
        else ""
  ]

  unfoldable pub prefix_source : S3Discoverer → String → DiscoveredSource
  unfolding prefix_to_name resolve_sqs_queue
  prefix_source d prefix = record {
    name = prefix_to_name prefix;
    metadata =
        bucket_prefix d.bucket prefix d.region
          (elim d.sqs_mapping [ none ↦ none | some m ↦ some (resolve_sqs_queue m prefix) ]);
  }

  unfoldable pub keep_prefixes : S3Discoverer → List String → List DiscoveredSource
  unfolding is_excluded prefix_source
  keep_prefixes d [] = []
  keep_prefixes d (prefix ∷ prefixes) =
      let rest = keep_prefixes d prefixes in
      if is_excluded glob d.exclude_patterns (prefix_to_name prefix)
      then rest
      else prefix_source d prefix ∷ rest

  unfoldable pub discover_s3 : S3Discoverer → Result DiscoveryError (List DiscoveredSource)
  unfolding list_at_depth keep_prefixes sort_sources
  discover_s3 d = elim d.client [
    | none ↦ err no_client
    | some client ↦ list_at_depth client d.bucket (depth_below d.depth) d.prefix >>= λ prefixes.
        ok (sort_sources (keep_prefixes d prefixes))
  ]
