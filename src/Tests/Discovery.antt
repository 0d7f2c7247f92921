-- ===== src/Tests/Discovery.antt =====
-- Source discovery at concrete inputs.
use Prim.Native.Nat.{min}
use dataprepper_operator.Base.{
  ◌∈◌, ◌↔◌, ℕ, zero, suc, ◌*◌, ◌≤◌, ◌<◌, ◌≡◌, refl, ap, arith, nat_eq, String, Bool, true, false,
  ◌&&◌, not, ◌==◌, string_eq, ℕ_discrete, contains, if◌then◌else◌, is_set, length, All, Option,
  none, some, List, [], ◌∷◌,
}
use dataprepper_operator.Base.Int.{ℤ, pos, negsuc, ◌+ℤ◌, ◌≤ℤ◌, to_int64}
use dataprepper_operator.Base.Dict.{Dict, lookup}
use dataprepper_operator.Base.Result.{ok}
use dataprepper_operator.Api.Discovery.{KafkaDiscoverySpec}
use dataprepper_operator.Api.Webhook.{graph_defs}
use dataprepper_operator.Discovery.Names.{runes, of_runes, runes-of_runes, sanitize_name}
use dataprepper_operator.Discovery.Names.Laws.{IsName, sanitize_name-IsName, sanitize_name_id}
use dataprepper_operator.Discovery.Policy.{
  discovery_backoff, max_discovery_backoff, discovery_failure_count_key, increment_failure_count,
  reset_failure_count,
}
use dataprepper_operator.Discovery.Policy.Laws.{discovery_backoff_lem, increment_failure_count_lem}
use dataprepper_operator.Discovery.Sources.{
  DiscoveredSource, topic, Strings, KafkaDiscoverer, S3Discoverer, S3Client, is_excluded,
  discover_kafka, discover_s3, prefix_to_name,
}
use dataprepper_operator.Discovery.Sources.Laws.{names, discover_kafka_lem}
use dataprepper_operator.Discovery.Sources.Listing.{Descends, Lists}
use dataprepper_operator.Discovery.Sources.Prefixes.{IsFound, discover_s3_lem}
use dataprepper_operator.Discovery.Template.{inherit_kafka_discovery_config}
use dataprepper_operator.Defaults.Preference.{Pairwise}
use dataprepper_operator.Discovery.Template.Laws.{IsInherited, inherit_kafka_discovery_config_lem}
use dataprepper_operator.Tests.Samples.{two_pipelines}

sanitize_name_topic : sanitize_name "_Logs.Prod_" ≡ "logs-prod"
unfolding sanitize_name ℕ_discrete
sanitize_name_topic = refl

sanitize_name-IsName_example : IsName (runes (sanitize_name "_Logs.Prod_"))
sanitize_name-IsName_example = sanitize_name-IsName "_Logs.Prod_"

sanitize_name_id_example :
    (IsName (runes "logs-prod") → runes (sanitize_name "logs-prod") ≡ runes "logs-prod")
    × (runes (sanitize_name (sanitize_name "logs-prod")) ≡ runes (sanitize_name "logs-prod"))
sanitize_name_id_example = sanitize_name_id "logs-prod"

discovery_backoff_third : discovery_backoff (pos 3) ≡ 120000000000
unfolding discovery_backoff
discovery_backoff_third = refl

discovery_backoff_lem_example :
    (30000000000 ≤ discovery_backoff (pos 3))
    × (discovery_backoff (pos 3) ≤ max_discovery_backoff)
    × ((more : ℤ) → pos 3 ≤ℤ more → discovery_backoff (pos 3) ≤ discovery_backoff more)
    × (pos 1 ≤ℤ pos 3
        → discovery_backoff (pos 3 +ℤ pos 1)
          ≡ min (2 * discovery_backoff (pos 3)) max_discovery_backoff)
discovery_backoff_lem_example = discovery_backoff_lem (pos 3)

-- In place of strconv: a sign and as many marks as the number says.
abbrev marks : ℕ → List ℕ
marks zero = []
marks (suc n) = 49 ∷ marks n

abbrev encode : ℤ → List ℕ
encode (pos n) = 43 ∷ marks n
encode (negsuc n) = 45 ∷ marks n

abbrev decode : List ℕ → ℤ
decode [] = pos 0
decode (r ∷ rs) = if r == 43 then pos (length rs) else negsuc (length rs)

abbrev itoa : ℤ → String
itoa n = of_runes (encode n)

abbrev atoi : String → ℤ
atoi s = decode (runes s)

length-marks : (n : ℕ) → length (marks n) ≡ n
length-marks zero = refl
length-marks (suc n) = ap suc (length-marks n)

marks-low : (n : ℕ) → All (λ r. r < 55296) (marks n)
marks-low zero = tt
marks-low (suc n) = (omega arith, marks-low n)

encode-low : (n : ℤ) → All (λ r. r < 55296) (encode n)
encode-low (pos n) = (omega arith, marks-low n)
encode-low (negsuc n) = (omega arith, marks-low n)

decode-encode : (n : ℤ) → decode (encode n) ≡ n
unfolding ℕ_discrete
decode-encode (pos n) = ap pos (length-marks n)
decode-encode (negsuc n) = ap negsuc (length-marks n)

atoi-itoa : (n : ℤ) → atoi (itoa n) ≡ n
atoi-itoa n = rw (runes-of_runes (encode n) (encode-low n)) (decode-encode n)

increment_failure_count_lem_example :
    (let (count, next) = increment_failure_count atoi itoa [] in
      ((increment_failure_count atoi itoa next).0 ≡ to_int64 (count +ℤ pos 1))
      × ((key : String)
          → (discovery_failure_count_key == key) ≡ false
          → lookup key next ≡ lookup key [])
      × (lookup discovery_failure_count_key (reset_failure_count next) ≡ none))
increment_failure_count_lem_example = increment_failure_count_lem atoi itoa (λ n h. atoi-itoa n) []

-- The strings package, as far as these tests use it.
abbrev plain : Strings
plain = record { has_prefix = λ s p. true; trim_suffix = λ s x. s; replace_all = λ s a b. s }

-- The pattern "dead" matches itself and nothing else.
abbrev equal : String → String → Option Bool
equal pattern name = some (pattern == name)

abbrev topics : Dict ℤ
topics = ("orders", pos 6) ∷ ("dead", pos 1) ∷ ("audit", pos 3) ∷ []

abbrev kafka : KafkaDiscoverer
kafka = record { client = some (ok topics); prefix = ""; exclude_patterns = "dead" ∷ [] }

discover_kafka_sorted :
    discover_kafka plain equal kafka
    ≡ ok (
        record { name = "audit"; metadata = topic (pos 3) }
        ∷ record { name = "orders"; metadata = topic (pos 6) }
        ∷ [])
unfolding discover_kafka string_eq
discover_kafka_sorted = refl

discover_kafka_lem_example :
    (sources : List DiscoveredSource) × (discover_kafka plain equal kafka ≡ ok sources)
    × ((name : String)
        → contains (names sources) name
          ≡ (is_set (lookup name topics) && (true && not (is_excluded equal ("dead" ∷ []) name))))
discover_kafka_lem_example = discover_kafka_lem plain equal kafka topics refl

abbrev buckets : S3Client
buckets = record { list_prefixes = λ b p d. ok (p ∷ "dead" ∷ []); ctx_err = λ p. none }

abbrev s3 : S3Discoverer
s3 = record {
  client = some buckets;
  bucket = "logs";
  region = "eu";
  prefix = "app";
  depth = pos 2;
  exclude_patterns = "dead" ∷ [];
  sqs_mapping = none;
}

-- Below each prefix of the bucket are the prefix itself and "dead".
abbrev children : String → List String
children p = p ∷ "dead" ∷ []

buckets-Lists : Lists buckets "logs" children
buckets-Lists = record { lists = λ p. refl; goes_on = λ p. refl }

discover_s3_lem_example :
    (sources : List DiscoveredSource) × (discover_s3 plain equal s3 ≡ ok sources)
    × ((name : String)
        → (name ∈ names sources) ↔ (
            (is_excluded equal ("dead" ∷ []) name ≡ false)
            × ((q : String) × Descends children 1 "app" q × (prefix_to_name plain equal q ≡ name))))
    × All (IsFound plain equal s3 (Descends children 1 "app")) sources
discover_s3_lem_example = discover_s3_lem plain equal s3 buckets children refl buckets-Lists

abbrev kafka_settings : KafkaDiscoverySpec
kafka_settings = record {
  bootstrap_servers = "kafka:9092" ∷ [];
  credentials_secret_ref = none;
  encryption_type = "ssl";
  topic_selector = record { prefix = ""; exclude_patterns = [] };
  poll_interval = "";
  cleanup_policy = "";
}

inherit_kafka_discovery_config_lem_example :
    (let m = inherit_kafka_discovery_config kafka_settings two_pipelines in
      Pairwise (IsInherited kafka_settings) two_pipelines.pipelines m.pipelines
      × (m ≡ record two_pipelines { pipelines = m.pipelines })
      × (inherit_kafka_discovery_config kafka_settings m ≡ m)
      × (graph_defs m.pipelines ≡ graph_defs two_pipelines.pipelines))
inherit_kafka_discovery_config_lem_example =
    inherit_kafka_discovery_config_lem kafka_settings two_pipelines
