-- ===== src/Discovery/Sources/Laws.antt =====
-- What the Kafka discoverer finds, and how the sources are sorted.
use dataprepper_operator.Base.{
  String, Bool, ◌&&◌, ◌||◌, not, ◌==◌, string_eq, contains, ◌≡◌, refl, arith, Option, some, is_set,
  List, [], ◌∷◌, All, if_ind,
}
use dataprepper_operator.Base.Int.{ℤ}
use dataprepper_operator.Base.Dict.{Dict, lookup}
use dataprepper_operator.Base.Result.{ok}
use dataprepper_operator.Discovery.Sources.{
  DiscoveredSource, DiscoveredSource, Strings, KafkaDiscoverer, insert_source, sort_sources,
  is_excluded, keep_topics, discover_kafka,
}

abbrev pub names : List DiscoveredSource → List String
names [] = []
names (s ∷ ss) = s.name ∷ names ss

insert_source-names :
    (s : DiscoveredSource) (ss : List DiscoveredSource) (name : String)
    → contains (names (insert_source s ss)) name ≡ (name == s.name || contains (names ss) name)
unfolding insert_source
insert_source-names s [] name = refl
insert_source-names s (t ∷ ts) name = ground (arith, insert_source-names s ts name)

pub sort_sources-names :
    (ss : List DiscoveredSource) (name : String)
    → contains (names (sort_sources ss)) name ≡ contains (names ss) name
unfolding sort_sources
sort_sources-names [] name = refl
sort_sources-names (s ∷ ss) name =
    ground (arith, insert_source-names s (sort_sources ss) name, sort_sources-names ss name)

module _ (P : DiscoveredSource → Type 0) where
  insert_source-All :
      (s : DiscoveredSource) (ss : List DiscoveredSource)
      → P s
      → All P ss
      → All P (insert_source s ss)
  unfolding insert_source
  insert_source-All s [] p h = (p, tt)
  insert_source-All s (t ∷ ts) p h =
      if_ind (All P) _ (s ∷ t ∷ ts) (t ∷ insert_source s ts) (λ _. (p, h))
        (λ _. (h.0, insert_source-All s ts p h.1))

  pub sort_sources-All : (ss : List DiscoveredSource) → All P ss → All P (sort_sources ss)
  unfolding sort_sources
  sort_sources-All [] h = tt
  sort_sources-All (s ∷ ss) h = insert_source-All s (sort_sources ss) h.0 (sort_sources-All ss h.1)

module _ (text : Strings) (glob : String → String → Option Bool) where
  -- The topics that the selector takes.
  abbrev selects : KafkaDiscoverer → String → Bool
  selects d name = text.has_prefix name d.prefix && not (is_excluded glob d.exclude_patterns name)

  keep_topics-names :
      (d : KafkaDiscoverer) (topics : Dict ℤ) (name : String)
      → contains (names (keep_topics text glob d topics)) name
        ≡ (is_set (lookup name topics) && selects d name)
  unfolding keep_topics lookup
  keep_topics-names d [] name = refl
  keep_topics-names d ((t, n) ∷ topics) name = ground (arith, keep_topics-names d topics name)

  -- With a client that lists its topics, discovery succeeds, and a name is among the sources exactly
  -- when it is a topic that has the prefix and that no exclude pattern matches.
  pub discover_kafka_lem :
      (d : KafkaDiscoverer) (topics : Dict ℤ)
      → d.client ≡ some (ok topics)
      → (sources : List DiscoveredSource) × (discover_kafka text glob d ≡ ok sources)
        × ((name : String)
            → contains (names sources) name ≡ (
                is_set (lookup name topics)
                && (text.has_prefix name d.prefix
                    && not (is_excluded glob d.exclude_patterns name))))
  unfolding discover_kafka
  discover_kafka_lem d topics h = (
    sort_sources (keep_topics text glob d topics),
    rw h refl,
    λ name.
        rw (sort_sources-names (keep_topics text glob d topics) name)
          (keep_topics-names d topics name),
  )
