-- ===== src/Discovery/Sources/Prefixes.antt =====
-- What the S3 discoverer finds: the prefixes at its depth below its own prefix.
use dataprepper_operator.Base.{
  String, Bool, true, false, ◌&&◌, not, ◌==◌, string_eq, contains, ◌∈◌, ◌≡◌, ◌↔◌, inl, inr, refl,
  sym, subst, ◌∙◌, ap, arith, Option, none, some, Option-cases, List, [], ◌∷◌, map, All, if_ind,
}
use dataprepper_operator.Base.Dict.{lookup}
use dataprepper_operator.Base.Result.{ok}
use dataprepper_operator.Discovery.Sources.{
  DiscoveredSource, bucket_prefix, Strings, S3Discoverer, S3Client, SqsQueueMapping, sort_sources,
  resolve_sqs_queue, is_excluded, prefix_to_name, prefix_source, keep_prefixes, discover_s3,
  depth_below,
}
use dataprepper_operator.Discovery.Sources.Laws.{names, sort_sources-names, sort_sources-All}
use dataprepper_operator.Discovery.Sources.Listing.{
  Descends, Lists, mem_split, mem_here, mem_there, list_at_depth-Descends,
}

module _ (text : Strings) (glob : String → String → Option Bool) where
  -- The queue of a prefix: none without a mapping, else the override for the prefix, else the
  -- template with the prefix's name in it, else empty.
  pub data IsQueue (prefix : String) : Option SqsQueueMapping → Option String → Type 0 where
    unmapped : IsQueue prefix none none
    overridden :
        (m : SqsQueueMapping) (url : String)
        → lookup prefix m.overrides ≡ some url
        → IsQueue prefix (some m) (some url)
    templated :
        (m : SqsQueueMapping)
        → lookup prefix m.overrides ≡ none
        → (m.queue_url_template == "") ≡ false
        → IsQueue prefix (some m) (
            some (
              text.replace_all m.queue_url_template "{{prefix}}" (prefix_to_name text glob prefix)))
    without_template :
        (m : SqsQueueMapping)
        → lookup prefix m.overrides ≡ none
        → (m.queue_url_template == "") ≡ true
        → IsQueue prefix (some m) (some "")

  -- A source that is made from a prefix with the property `P`.
  pub record IsFound (d : S3Discoverer) (P : String → Type 0) (s : DiscoveredSource) : Type 0 where
    pub kept : is_excluded glob d.exclude_patterns s.name ≡ false
    pub prefix : String
    pub listed : P prefix
    pub named : s.name ≡ prefix_to_name text glob prefix
    pub queue : Option String
    pub carries : s.metadata ≡ bucket_prefix d.bucket prefix d.region queue
    pub mapped : IsQueue prefix d.sqs_mapping queue

  resolve_sqs_queue-IsQueue :
      (m : SqsQueueMapping) (prefix : String)
      → IsQueue prefix (some m) (some (resolve_sqs_queue text glob m prefix))
  unfolding resolve_sqs_queue
  resolve_sqs_queue-IsQueue m prefix = elim (Option-cases (lookup prefix m.overrides)) [
    | inr (url, there) ↦ rw (resolve_sqs_queue, there) (overridden m url there)
    | inl absent ↦
        rw (resolve_sqs_queue, absent)
          (if_ind (λ (u : String). IsQueue prefix (some m) (some u))
            (not (m.queue_url_template == "")) _ _ (λ h. templated m absent (ground (arith, h)))
            (λ h. without_template m absent (ground (arith, h))))
  ]

  keep_prefixes-names :
      (d : S3Discoverer) (prefixes : List String) (name : String)
      → contains (names (keep_prefixes text glob d prefixes)) name ≡ (
          contains (map (prefix_to_name text glob) prefixes) name
          && not (is_excluded glob d.exclude_patterns name))
  unfolding keep_prefixes prefix_source
  keep_prefixes-names d [] name = refl
  keep_prefixes-names d (p ∷ ps) name = ground (arith, keep_prefixes-names d ps name)

  prefix_source-IsQueue :
      (prefix : String) (mapping : Option SqsQueueMapping)
      → IsQueue prefix mapping
          (elim mapping [ none ↦ none | some m ↦ some (resolve_sqs_queue text glob m prefix) ])
  prefix_source-IsQueue prefix none = unmapped
  prefix_source-IsQueue prefix (some m) = resolve_sqs_queue-IsQueue m prefix

  keep_prefixes-All :
      (d : S3Discoverer) (P : String → Type 0) (prefixes : List String)
      → ((q : String) → q ∈ prefixes → P q)
      → All (IsFound d P) (keep_prefixes text glob d prefixes)
  unfolding keep_prefixes prefix_source
  keep_prefixes-All d P [] h = tt
  keep_prefixes-All d P (p ∷ ps) h =
      let rest = keep_prefixes-All d P ps (λ q m. h q (mem_there q p ps m)) in
      if_ind (All (IsFound d P)) _ (keep_prefixes text glob d ps)
        (prefix_source text glob d p ∷ keep_prefixes text glob d ps) (λ _. rest)
        (λ kept. (
          record {
            kept = kept;
            prefix = p;
            listed = h p (mem_here p ps);
            named = refl;
            queue = (elim d.sqs_mapping [
              | none ↦ none
              | some m ↦ some (resolve_sqs_queue text glob m p)
            ]);
            carries = refl;
            mapped = prefix_source-IsQueue p d.sqs_mapping;
          },
          rest,
        ))

  map_iff :
      (f : String → String) (ps : List String) (name : String)
      → (name ∈ map f ps) ↔ ((q : String) × (q ∈ ps) × (f q ≡ name))
  map_iff f [] name = (λ e. absurd cc, λ r. absurd (cc r.1))
  map_iff f (p ∷ ps) name = (
    λ e. elim (mem_split name (f p) (map f ps) e) [
      | inl same ↦ (p, mem_here p ps, sym same)
      | inr later ↦ let (q, mem, is) = (map_iff f ps name).0 later in (q, mem_there q p ps mem, is)
    ],
    λ r. elim (mem_split r.0 p ps r.1) [
      | inl same ↦
          subst (λ n. n ∈ f p ∷ map f ps) (ap f (sym same) ∙ r.2) (mem_here (f p) (map f ps))
      | inr later ↦ mem_there name (f p) (map f ps) ((map_iff f ps name).1 (r.0, later, r.2))
    ],
  )

  kept_iff : (a b x : Bool) → x ≡ (a && not b) → (x ≡ true) ↔ ((a ≡ true) × (b ≡ false))
  kept_iff a b x h = ground (arith, h)

  -- With a client whose calls answer for every prefix, discovery succeeds. A name is among the sources
  -- exactly when no exclude pattern matches it and it is the name of a prefix at the depth of the
  -- discoverer, at least one, below its own prefix. Each source carries the bucket and the region of
  -- the discoverer, such a prefix of its name, and that prefix's queue: the override for it if there
  -- is one, else what the template gives.
  pub discover_s3_lem :
      (d : S3Discoverer) (client : S3Client) (children : String → List String)
      → d.client ≡ some client
      → Lists client d.bucket children
      → (let IsBelow = Descends children (depth_below d.depth) d.prefix in
          (sources : List DiscoveredSource) × (discover_s3 text glob d ≡ ok sources)
          × ((name : String)
              → (name ∈ names sources) ↔ (
                  (is_excluded glob d.exclude_patterns name ≡ false)
                  × ((q : String) × IsBelow q × (prefix_to_name text glob q ≡ name))))
          × All (IsFound d IsBelow) sources)
  unfolding discover_s3
  discover_s3_lem d client children h answers =
      let (prefixes, listed, found) =
        list_at_depth-Descends client d.bucket children answers (depth_below d.depth) d.prefix in
      let kept = keep_prefixes text glob d prefixes in
      (
        sort_sources kept,
        rw (h, listed) refl,
        λ name.
            let here =
              kept_iff (contains (map (prefix_to_name text glob) prefixes) name)
                (is_excluded glob d.exclude_patterns name)
                (contains (names (sort_sources kept)) name)
                (sort_sources-names kept name ∙ keep_prefixes-names d prefixes name) in
            let named = map_iff (prefix_to_name text glob) prefixes name in
            (
              λ m.
                  let (in_map, passes) = here.0 m in
                  let (q, mem, is) = named.0 in_map in (passes, (q, (found q).0 mem, is)),
              λ r. here.1 (named.1 (r.1.0, (found r.1.0).1 r.1.1, r.1.2), r.0),
            ),
        sort_sources-All (IsFound d (Descends children (depth_below d.depth) d.prefix)) kept (
            keep_prefixes-All d (Descends children (depth_below d.depth) d.prefix) prefixes
              (λ q. (found q).0)),
      )
