-- ===== src/Discovery/Runs/Laws.antt =====
-- When a run of the discovery leaves the pipelines alone, and when it comes back after a failure.
use dataprepper_operator.Base.{
  ◌≡◌, ◌⊎◌, ◌≤◌, inl, inr, refl, ◌∙◌, ap, String, true, false, if◌then◌else◌, string_eq, Option,
  none, some, [],
}
use dataprepper_operator.Base.Int.{ℤ, pos, ◌+ℤ◌, to_int64}
use dataprepper_operator.Base.Result.{Result, ok, err}
use dataprepper_operator.Api.Discovery.{KafkaDiscoverySpec, S3DiscoverySpec}
use dataprepper_operator.Discovery.Reader.{ReadError, read_kafka, read_s3}
use dataprepper_operator.Discovery.Policy.{
  discovery_backoff, failure_count, increment_failure_count, max_discovery_backoff,
}
use dataprepper_operator.Discovery.Policy.Laws.{discovery_backoff_lem}
use dataprepper_operator.Discovery.Rollout.{discovery_label_key}
use dataprepper_operator.Discovery.Cycle.{DiscoveryPhase}
use dataprepper_operator.Discovery.Objects.{
  Client, Libraries, Discovery, CallError, discovery_finalizer_name,
}
use dataprepper_operator.Discovery.Runs.{
  write_read, retry_write, update_discovery_status, count_children, put_report, count_failure,
  on_failure, discovered, discover_from, discover, finalize, ensure_finalizer, with_finalizer,
  run_found, reconcile,
}

-- The calls for the discovery itself change no pipeline.
pub record IsClient {Cluster : Type 0} (client : Client Cluster) : Type 0 where
  pub update_only :
      (d : Discovery) (n : String) (c : Cluster)
      → client.pipelines.get n (client.update d c).1 ≡ client.pipelines.get n c
  pub status_only :
      (d : Discovery) (n : String) (c : Cluster)
      → client.pipelines.get n (client.update_status d c).1 ≡ client.pipelines.get n c
  pub retry_only :
      (f : Discovery × Cluster → Option CallError × Discovery × Cluster) (n : String)
      (d : Discovery) (c : Cluster)
      → ((e : Discovery) (now : Cluster)
          → client.pipelines.get n (f (e, now)).2 ≡ client.pipelines.get n now)
      → client.pipelines.get n (client.retry_on_conflict f (d, c)).2 ≡ client.pipelines.get n c

module _ {Cluster : Type 0} (client : Client Cluster) (libraries : Libraries) where
  -- The sources cannot be read.
  abbrev pub FailsToRead : Discovery → Cluster → Type 0
  FailsToRead d c =
      (e : ReadError) × (((kafka : KafkaDiscoverySpec) × (d.spec.kafka ≡ some kafka)
          × (read_kafka (client.get_secret c) libraries.text libraries.glob (client.kafka_factory c)
                kafka
              ≡ err e))
        ⊎ ((d.spec.kafka ≡ none)
            × (s3 : S3DiscoverySpec) × (d.spec.s3 ≡ some s3)
            × (read_s3 (client.get_secret c) libraries.text libraries.glob (client.s3_factory c) s3
                ≡ err e)))

module _ {Cluster : Type 0} (client : Client Cluster) (libraries : Libraries)
    (is_client : IsClient client) where
  write_read-only :
      (write : Discovery → Cluster → Option CallError × Cluster) (change : Discovery → Discovery)
      (d : Discovery) (r : Result CallError Discovery) (n : String) (c : Cluster)
      → ((q : Discovery) (now : Cluster)
          → client.pipelines.get n (write q now).1 ≡ client.pipelines.get n now)
      → client.pipelines.get n (write_read client libraries write change d r c).2
        ≡ client.pipelines.get n c
  write_read-only write change d (err e) n c h = refl
  write_read-only write change d (ok q) n c h = h (change q) c

  retry_write-only :
      (write : Discovery → Cluster → Option CallError × Cluster) (change : Discovery → Discovery)
      (d : Discovery) (n : String) (c : Cluster)
      → ((q : Discovery) (now : Cluster)
          → client.pipelines.get n (write q now).1 ≡ client.pipelines.get n now)
      → client.pipelines.get n (retry_write client libraries write change d c).2
        ≡ client.pipelines.get n c
  unfolding retry_write
  retry_write-only write change d n c h =
      is_client.retry_only
        (λ at. write_read client libraries write change at.0 (client.get d.name at.1) at.1) n d c
        (λ e now. write_read-only write change e (client.get d.name now) n now h)

  update_discovery_status-only :
      (d : Discovery) (n : String) (c : Cluster)
      → client.pipelines.get n (update_discovery_status client libraries d c).2
        ≡ client.pipelines.get n c
  unfolding update_discovery_status
  update_discovery_status-only d n c =
      let report =
        count_children client libraries d.report
          (client.pipelines.list discovery_label_key d.name c) in
      retry_write-only client.update_status (λ q. record q { report = report }) d n c
        (λ q now. is_client.status_only q n now)

  abbrev count_of : Discovery → ℤ
  count_of d = to_int64 (failure_count libraries.atoi libraries.itoa d.annotations +ℤ pos 1)

  on_failure_lem :
      (d : Discovery) (n : String) (c : Cluster)
      → ((on_failure client libraries d c).error ≡ none)
        × ((on_failure client libraries d c).requeue_after ≡ pos (discovery_backoff (count_of d)))
        × (client.pipelines.get n (on_failure client libraries d c).cluster
            ≡ client.pipelines.get n c)
  unfolding on_failure increment_failure_count
  on_failure_lem d n c =
      let noted = record d {
        annotations = (increment_failure_count libraries.atoi libraries.itoa d.annotations).1;
      } in
      let counted =
        retry_write client libraries client.update (count_failure client libraries) noted c in
      (
        refl,
        refl,
        update_discovery_status-only (put_report client libraries DiscoveryPhase.error [] counted.1)
              n counted.2
            ∙ retry_write-only client.update (count_failure client libraries) noted n c
                (λ q now. is_client.update_only q n now),
      )

  discover-on_failure :
      (d : Discovery) (c : Cluster)
      → FailsToRead client libraries d c
      → discover client libraries d c ≡ on_failure client libraries d c
  unfolding discover
  discover-on_failure d c (e, inl (kafka, there, fails)) =
      ap (λ k. discover_from client libraries d k d.spec.s3 c) there
      ∙ ap (λ r. discovered client libraries d r c) fails
  discover-on_failure d c (e, inr (none_there, s3, there, fails)) =
      ap (λ k. discover_from client libraries d k d.spec.s3 c) none_there
      ∙ ap (λ s. discover_from client libraries d none s c) there
      ∙ ap (λ r. discovered client libraries d r c) fails

  run_alive :
      (name : String) (d : Discovery) (c : Cluster)
      → client.get name c ≡ ok d
      → d.deleting ≡ false
      → libraries.contains_finalizer discovery_finalizer_name d.finalizers ≡ true
      → reconcile client libraries name c ≡ discover client libraries d c
  unfolding reconcile
  run_alive name d c found alive kept =
      ap (λ r. run_found client libraries r c) found
      ∙ ap
          (λ b.
            if b
            then finalize client libraries d c
            else if libraries.contains_finalizer discovery_finalizer_name d.finalizers
            then discover client libraries d c
            else ensure_finalizer client libraries (with_finalizer client libraries d)
                (client.update (with_finalizer client libraries d) c))
          alive
      ∙ ap
          (λ b.
            if b
            then discover client libraries d c
            else ensure_finalizer client libraries (with_finalizer client libraries d)
                (client.update (with_finalizer client libraries d) c))
          kept

  -- A run for a discovery with its finalizer that is not being deleted, and whose sources cannot be
  -- read, ends without an error and changes no pipeline. It comes back after the backoff for the
  -- failures counted so far and this one, which is between 30 seconds and 5 minutes.
  pub reconcile-failure :
      (name : String) (d : Discovery) (n : String) (c : Cluster)
      → client.get name c ≡ ok d
      → d.deleting ≡ false
      → libraries.contains_finalizer discovery_finalizer_name d.finalizers ≡ true
      → FailsToRead client libraries d c
      → (let run = reconcile client libraries name c in
          let wait =
            discovery_backoff
              (to_int64 (failure_count libraries.atoi libraries.itoa d.annotations +ℤ pos 1)) in
          (run.error ≡ none)
          × (run.requeue_after ≡ pos wait)
          × (30000000000 ≤ wait)
          × (wait ≤ max_discovery_backoff)
          × (client.pipelines.get n run.cluster ≡ client.pipelines.get n c))
  reconcile-failure name d n c found alive kept fails =
      let opened = run_alive name d c found alive kept ∙ discover-on_failure d c fails in
      let (ended, waits, same) = on_failure_lem d n c in
      let bounds = discovery_backoff_lem (count_of d) in
      (
        ap (λ r. r.error) opened ∙ ended,
        ap (λ r. r.requeue_after) opened ∙ waits,
        bounds.0,
        bounds.1,
        ap (λ r. client.pipelines.get n r.cluster) opened ∙ same,
      )
