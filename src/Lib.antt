-- ===== src/Lib.antt =====
-- Verification library of the Data Prepper operator, a Kubernetes operator in Go. It models the
-- operator's own decisions: which pipelines are admitted, what defaults add to them, how many
-- replicas they get, which configuration and which Kubernetes objects are generated from them, how
-- a run brings a cluster to them, and which pipelines a discovery creates, updates and removes.
--
-- The parts, the files that model them, and the code that they translate:
--   Validation      the graph check ValidateGraph, internal/validation/graph.go. `check_names`,
--                   `check_references` and `build_adj` are its loops, `dfs` with `visit` the
--                   recursive search, `search_all` the loop over its roots.
--   Api             the custom resources' types, api/v1alpha1/*_types.go, as records with the
--                   source's field names. Pass-through Kubernetes types are JSON values (Api/Json).
--   Api/Webhook     validatePipeline and what it calls, api/v1alpha1/dataprepperpipeline_webhook.go.
--                   It hands the pipelines to Validation as `graph_defs`.
--   Defaults        MergeSpec, internal/defaults/merger.go, which works on what the webhook admitted.
--   Scaler          CalculateStatic and CalculateKafka, internal/scaler/scaler.go.
--   PeerForwarder   NeedsForwarding and GenerateConfig, internal/peerforwarder/detector.go.
--   Generator       pipelines.yaml and data-prepper-config.yaml, internal/generator
--                   (pipeline_config.go, dp_config.go, helpers.go), as JSON trees. Generator/Graph
--                   reads the connections back from the file. Generator/Credentials has
--                   credentialEnvVars (internal/generator/deployment.go) and referencedSecrets
--                   (internal/controller/dataprepperpipeline_controller.go).
--   Discovery       Sources: internal/discovery/kafka.go and s3.go. Names, Policy, Template, Rollout,
--                   Cleanup and Cycle: the parts of
--                   internal/controller/datapreppersourcediscovery_controller.go. Sources yields
--                   the sources, Template the specification for each, Names the name, Rollout
--                   creates and updates, Cleanup removes, Cycle reports and sets the next run.
--                   Objects has the discovery and the calls for it. Reader reads the sources, with
--                   the secrets (kafkaConfigFromSecret and s3ConfigFromSecret of helpers.go beside
--                   it). Runs puts the parts together as Reconcile, with the finalizer, the path of
--                   a failed reading and updateDiscoveryStatus.
--   Workload        the objects of a pipeline, internal/generator/deployment.go, service.go, hpa.go
--                   and pdb.go, as records of what the generators set.
--   Reconciler      internal/controller/dataprepperpipeline_controller.go and helpers.go. The file
--                   itself has calculateScaling, calculateKafkaScaling, scalingBounds and the
--                   decision of updateStatus; it asks Scaler for the numbers. Resources has
--                   reconcileOrDelete and the reconcile functions of the objects, Hash has HashOfData
--                   and secretHash, Planning what Reconcile computes before its first write, Cycle
--                   Reconcile itself with updateStatus, Triggers findPipelinesForSecret. Cycle takes
--                   the graph check from Validation, the merge from Defaults, the files from
--                   Generator and the objects from Workload.
--   Propagation     Reconcile of internal/controller/dataprepperdefaults_controller.go, which makes
--                   the pipelines run again when the defaults change.
--   Base            shared types, equality tests, lists, integers, Go maps as association lists
--                   and results. Tests holds runs at concrete inputs.
--
-- How the code is translated: an `error` is an Option or a Result with a constructor for each
-- message, a nil pointer is `none`, an int32 is an integer whose wrap-around is written out where
-- the code converts, a Go map is an association list. The order in which a range over a map meets
-- the entries is a parameter of the rollout (`Orders`) and open otherwise.
--
-- Parameters, for code outside the repository and for what only calls such code: `unmarshal`
-- (encoding/json), the reader of
-- defaults in the webhook, `int32_of_inf` (the conversion of +Inf), `glob` (filepath.Match), the
-- strings package in the discoverers (`Strings`), the Kafka and S3 clients, `count_partitions`
-- (the partitions of a topic, or why they are not known), `instantiate` (the
-- rendered template), the hash of a specification, SHA-256 (`digest`), the YAML printer (`to_yaml`),
-- fmt's "%d" (`decimal`), strconv and time.ParseDuration, controller-runtime's helpers for owners,
-- finalizers and conditions (`Libraries` in Reconciler/Planning and Discovery/Objects), and the API
-- server. It is a record of calls that return the cluster after them (`Api` in Discovery/Rollout and
-- in Reconciler/Resources, `Client` in Reconciler/Planning, Propagation and Discovery/Objects). What
-- its successful calls do is stated by `IsWriter` in Discovery/Rollout/Writes, `IsStore` in
-- Discovery/Cleanup/Laws, `IsServer`, `IsAvailable` and `IsController` in
-- Reconciler/Resources/Server, and `IsClient` in Reconciler/Cycle/Runs, Propagation/Laws and
-- Discovery/Runs/Laws. The objects are stored as they are sent, but for the cluster IP of a
-- Service, which the server chooses where it is left open (`IsFilled`). Other fields that the server
-- fills in itself are not part of the model. A deleted pipeline is gone or keeps a deletion timestamp
-- (`IsLeaving`). RetryOnConflict is a call of the client that runs the function
-- given to it, and answers with its last answer.
--
-- Bounds and fuel: the search of the graph check recurses on as many levels as there are names: each
-- level paints a new name. All other loops are structural. float64 is
-- modelled by exact numbers where the operands make it exact (Scaler, Discovery/Policy).
--
-- Not modelled: metrics, events and log lines, the messages of conditions and the texts of errors,
-- the Kafka and S3 clients (third-party calls), and the manager's set-up.
pub mod Base
pub mod Validation
pub mod Api
pub mod Defaults
pub mod Scaler
pub mod PeerForwarder
pub mod Generator
pub mod Discovery
pub mod Reconciler
pub mod Workload
pub mod Propagation
mod Tests
