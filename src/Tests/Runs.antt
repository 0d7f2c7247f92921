-- ===== src/Tests/Runs.antt =====
-- Runs of the discovery's reconciler at concrete inputs. The server of these tests holds one
-- discovery and its pipelines; its writes of the discovery are counted and all succeed.
use dataprepper_operator.Base.{
  inl, ◌≡◌, ◌≤◌, refl, ℕ, suc, Bool, true, false, ◌==◌, string_eq, contains, Option, none, some, [],
  ◌∷◌,
}
use dataprepper_operator.Base.Int.{pos, ◌+ℤ◌, to_int64}
use dataprepper_operator.Base.Dict.{Dict, lookup, insert, erase}
use dataprepper_operator.Base.Result.{ok, err}
use dataprepper_operator.Api.Pipeline.{PipelinePhase}
use dataprepper_operator.Api.Discovery.{KafkaDiscoverySpec}
use dataprepper_operator.Discovery.Policy.{discovery_backoff, failure_count, max_discovery_backoff}
use dataprepper_operator.Discovery.Reader.{no_factory, read_kafka}
use dataprepper_operator.Discovery.Rollout.{Api, Pipeline}
use dataprepper_operator.Discovery.Cycle.{DiscoveryPhase}
use dataprepper_operator.Discovery.Objects.{Client, Libraries, Discovery}
use dataprepper_operator.Discovery.Runs.{reconcile}
use dataprepper_operator.Discovery.Runs.Laws.{IsClient, FailsToRead, reconcile-failure}
use dataprepper_operator.Tests.Samples.{two_pipelines}

abbrev Server : Type 0
Server = ℕ × Dict Pipeline

abbrev blank : Pipeline
blank = record {
  deleting = false;
  labels = [];
  annotations = [];
  owner_references = record { uid = "u"; controller = true } ∷ [];
  spec = two_pipelines;
  phase = PipelinePhase.unset;
}

abbrev or_blank : Option Pipeline → Pipeline
or_blank none = blank
or_blank (some p) = p

abbrev stored_pipelines : Api Server
stored_pipelines = record {
  get = λ name c. lookup name c.1;
  list = λ label value c. ok c.1;
  create_or_update = λ name f c. elim (f (or_blank (lookup name c.1))) [
    | err e ↦ (some e, c)
    | ok p ↦ (none, (c.0, insert name p c.1))
  ];
  update = λ name p c. (none, (c.0, insert name p c.1));
  delete = λ name c. (none, (c.0, erase name c.1));
}

abbrev settings : KafkaDiscoverySpec
settings = record {
  bootstrap_servers = "kafka:9092" ∷ [];
  credentials_secret_ref = none;
  encryption_type = "ssl";
  topic_selector = record { prefix = ""; exclude_patterns = [] };
  poll_interval = "";
  cleanup_policy = "Orphan";
}

-- With its finalizer, and being deleted or not.
abbrev discovery : (deleting : Bool) → Discovery
discovery deleting = record {
  name = "disc";
  uid = "u";
  generation = pos 1;
  deleting = deleting;
  finalizers = "dataprepper.kaasops.io/discovery-finalizer" ∷ [];
  annotations = [];
  spec = record {
    kafka = some settings;
    s3 = none;
    pipeline_template = record { spec = two_pipelines };
    overrides = [];
    max_creations_per_cycle = none;
  };
  report = record {
    phase = DiscoveryPhase.idle;
    observed_generation = pos 0;
    discovered_sources = pos 0;
    active_pipelines = pos 0;
    updating_pipelines = pos 0;
    conditions = [];
    sources = [];
  };
}

-- Without a factory for Kafka clients.
abbrev client : (deleting : Bool) → Client Server
client deleting = record {
  pipelines = stored_pipelines;
  get = λ name c. ok (discovery deleting);
  update = λ d c. (none, (suc c.0, c.1));
  update_status = λ d c. (none, (suc c.0, c.1));
  get_secret = λ c name. err "absent";
  kafka_factory = λ c. none;
  s3_factory = λ c. none;
  retry_on_conflict = λ f at. f at;
}

client-IsClient : (deleting : Bool) → IsClient (client deleting)
client-IsClient deleting = record {
  update_only = λ d n c. refl;
  status_only = λ d n c. refl;
  retry_only = λ f n d c h. h d c;
}

abbrev libraries : Libraries
libraries = record {
  set_controller_reference = λ refs. ok refs;
  contains_finalizer = λ name all. contains all name;
  add_finalizer = λ name all. name ∷ all;
  remove_finalizer = λ name all. [];
  set_status_condition = λ new all. new ∷ all;
  text = record { has_prefix = λ s p. true; trim_suffix = λ s x. s; replace_all = λ s a b. s };
  glob = λ pattern name. some (pattern == name);
  instantiate = λ spec source. ok spec;
  compute_spec_hash = λ spec. "h";
  parse_duration = λ s. none;
  atoi = λ s. pos 0;
  itoa = λ n. "1";
  orders = record { creating = λ d. d; updating = λ d. d; checking = λ p. p };
}

abbrev children : Dict Pipeline
children = ("disc-a", blank) ∷ ("disc-b", blank) ∷ []

cannot_read : FailsToRead (client false) libraries (discovery false) (0, children)
unfolding read_kafka
cannot_read = (no_factory, inl (settings, refl, refl))

reconcile-failure_example :
    (let run = reconcile (client false) libraries "disc" (0, children) in
      let wait =
        discovery_backoff (to_int64 (failure_count libraries.atoi libraries.itoa [] +ℤ pos 1)) in
      (run.error ≡ none)
      × (run.requeue_after ≡ pos wait)
      × (30000000000 ≤ wait)
      × (wait ≤ max_discovery_backoff)
      × (lookup "disc-a" run.cluster.1 ≡ lookup "disc-a" children))
unfolding string_eq
reconcile-failure_example =
    reconcile-failure (client false) libraries (client-IsClient false) "disc" (discovery false)
      "disc-a" (0, children) refl refl refl cannot_read
