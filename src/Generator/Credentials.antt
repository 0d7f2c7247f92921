-- ===== src/Generator/Credentials.antt =====
-- The credentials of a pipeline: the environment of its container, `credentialEnvVars` of
-- internal/generator/deployment.go, and the secrets that are hashed, `referencedSecrets` of
-- internal/controller/dataprepperpipeline_controller.go.
pub mod Laws
pub mod Environment
use dataprepper_operator.Base.{
  String, Bool, true, false, ◌&&◌, not, Option, none, some, List, [], ◌∷◌, ◌++◌, contains,
  string_eq, if◌then◌else◌,
}
use dataprepper_operator.Api.Common.{SecretReference, SinkSpec}
use dataprepper_operator.Api.Pipeline.{SourceSpec, PipelineDefinition}

-- A variable that takes its value from a key of a secret.
pub record EnvVar : Type 0 where
  pub name : String
  pub secret_name : String
  pub key : String

abbrev pub secret_env_var : (name secret key : String) → EnvVar
secret_env_var name secret key = record { name = name; secret_name = secret; key = key }

-- `p.Source.Kafka != nil && p.Source.Kafka.CredentialsSecretRef != nil`, and the secret's name.
abbrev pub secret_of : Option SecretReference → Option String
secret_of none = none
secret_of (some r) = some r.name

unfoldable pub kafka_source_secret : SourceSpec → Option String
kafka_source_secret s = elim s.kafka [ none ↦ none | some k ↦ secret_of k.credentials_secret_ref ]

unfoldable pub s3_source_secret : SourceSpec → Option String
s3_source_secret s = elim s.s3 [ none ↦ none | some k ↦ secret_of k.credentials_secret_ref ]

unfoldable pub kafka_sink_secret : SinkSpec → Option String
kafka_sink_secret s = elim s.kafka [ none ↦ none | some k ↦ secret_of k.credentials_secret_ref ]

unfoldable pub open_search_sink_secret : SinkSpec → Option String
open_search_sink_secret s = elim s.open_search [
  | none ↦ none
  | some o ↦ secret_of o.credentials_secret_ref
]

unfoldable pub s3_sink_secret : SinkSpec → Option String
s3_sink_secret s = elim s.s3 [ none ↦ none | some k ↦ secret_of k.credentials_secret_ref ]

-- The variables of the loop.
pub record Found : Type 0 where
  pub envs : List EnvVar
  pub kafka_found : Bool
  pub os_found : Bool
  pub s3_found : Bool

abbrev pub kafka_vars : String → List EnvVar
kafka_vars secret =
    secret_env_var "KAFKA_USERNAME" secret "username"
    ∷ secret_env_var "KAFKA_PASSWORD" secret "password"
    ∷ []

abbrev pub os_vars : String → List EnvVar
os_vars secret =
    secret_env_var "OPENSEARCH_USERNAME" secret "username"
    ∷ secret_env_var "OPENSEARCH_PASSWORD" secret "password"
    ∷ []

abbrev pub s3_vars : String → List EnvVar
s3_vars secret =
    secret_env_var "AWS_ACCESS_KEY_ID" secret "aws_access_key_id"
    ∷ secret_env_var "AWS_SECRET_ACCESS_KEY" secret "aws_secret_access_key"
    ∷ []

pub add_kafka : Option String → Found → Found
add_kafka none f = f
add_kafka (some secret) f =
    if f.kafka_found then f else record f { envs = f.envs ++ kafka_vars secret; kafka_found = true }

pub add_os : Option String → Found → Found
add_os none f = f
add_os (some secret) f =
    if f.os_found then f else record f { envs = f.envs ++ os_vars secret; os_found = true }

pub add_s3 : Option String → Found → Found
add_s3 none f = f
add_s3 (some secret) f =
    if f.s3_found then f else record f { envs = f.envs ++ s3_vars secret; s3_found = true }

abbrev pub all_found : Found → Bool
all_found f = f.kafka_found && f.os_found && f.s3_found

pub add_sink : SinkSpec → Found → Found
unfolding add_kafka add_os add_s3 kafka_sink_secret open_search_sink_secret s3_sink_secret
add_sink s f =
    add_s3 (s3_sink_secret s)
      (add_os (open_search_sink_secret s) (add_kafka (kafka_sink_secret s) f))

-- The inner loop, which breaks once all three are found.
pub add_sinks : List SinkSpec → Found → Found
unfolding add_sink
add_sinks [] f = f
add_sinks (s ∷ ss) f =
    let f' = add_sink s f in let rest = add_sinks ss f' in if all_found f' then f' else rest

pub add_definition : PipelineDefinition → Found → Found
unfolding add_sinks kafka_source_secret s3_source_secret
add_definition p f =
    add_sinks p.sink
      (add_s3 (s3_source_secret p.source) (add_kafka (kafka_source_secret p.source) f))

pub add_definitions : List PipelineDefinition → Found → Found
unfolding add_definition
add_definitions [] f = f
add_definitions (p ∷ ps) f =
    let f' = add_definition p f in
    let rest = add_definitions ps f' in if all_found f' then f' else rest

abbrev pub nothing_found : Found
nothing_found = record { envs = []; kafka_found = false; os_found = false; s3_found = false }

unfoldable pub credential_env_vars : List PipelineDefinition → List EnvVar
unfolding add_definitions
credential_env_vars ps = (add_definitions ps nothing_found).envs

-- `if !seen[name] { ... }`: the list is the set `seen` as well, in order of appearance.
pub add_ref : Option String → List String → List String
add_ref none refs = refs
add_ref (some name) refs = if contains refs name then refs else refs ++ name ∷ []

pub add_sink_refs : List SinkSpec → List String → List String
unfolding add_ref kafka_sink_secret open_search_sink_secret s3_sink_secret
add_sink_refs [] refs = refs
add_sink_refs (s ∷ ss) refs = add_sink_refs ss (
    add_ref (kafka_sink_secret s)
      (add_ref (s3_sink_secret s) (add_ref (open_search_sink_secret s) refs)))

pub add_refs : List PipelineDefinition → List String → List String
unfolding add_sink_refs kafka_source_secret s3_source_secret
add_refs [] refs = refs
add_refs (p ∷ ps) refs = add_refs ps (
    add_sink_refs p.sink
      (add_ref (s3_source_secret p.source) (add_ref (kafka_source_secret p.source) refs)))

unfoldable pub referenced_secrets : List PipelineDefinition → List String
unfolding add_refs
referenced_secrets ps = add_refs ps []
