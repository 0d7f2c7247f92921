-- ===== src/Tests/Generator.antt =====
-- The generators at concrete inputs.
use dataprepper_operator.Base.{
  ◌≡◌, ◌≢◌, ◌↔◌, refl, string_eq, ℕ_discrete, ◌∈◌, Distinct, All, String, some, [], ◌∷◌,
}
use dataprepper_operator.Base.Int.{ℤ, pos, int_eq, to_int32}
use dataprepper_operator.Base.Result.{ok}
use dataprepper_operator.Api.Json.{Fields, obj, end}
use dataprepper_operator.Api.Webhook.{graph_defs}
use dataprepper_operator.Generator.Helpers.{source_ports}
use dataprepper_operator.Generator.Ports.{IsIncreasing, Serves, source_ports_lem}
use dataprepper_operator.Generator.PipelineConfig.{generate_pipeline_config}
use dataprepper_operator.Generator.Graph.Read.{read_graph}
use dataprepper_operator.Generator.Graph.Sound.{generate_pipeline_config-read_graph}
use dataprepper_operator.Generator.Credentials.{credential_env_vars, referenced_secrets}
use dataprepper_operator.Generator.Credentials.Laws.{Refers, referenced_secrets_lem}
use dataprepper_operator.Generator.Credentials.Environment.{credential_env_vars-referenced}
use dataprepper_operator.Tests.Samples.{
  two_pipelines, reading, listening, read_defaults, read_json, accepted,
}

generate_pipeline_config-read_graph_example :
    (file : Fields) × (generate_pipeline_config read_json two_pipelines.pipelines (pos 3) ≡ ok file)
    × (read_graph file ≡ graph_defs two_pipelines.pipelines)
generate_pipeline_config-read_graph_example =
    generate_pipeline_config-read_graph read_json (some read_defaults) "logs" "prod" two_pipelines
      (pos 3) accepted (((obj end, refl), tt), (tt, tt))

source_ports_twice : source_ports (listening ∷ reading ∷ listening ∷ []) ≡ pos 2021 ∷ []
unfolding source_ports int_eq ℕ_discrete to_int32
source_ports_twice = refl

source_ports_lem_example :
    IsIncreasing (source_ports (listening ∷ []))
    × ((n : ℤ) → (n ∈ source_ports (listening ∷ [])) ↔ (Serves (listening ∷ []) n × (n ≢ pos 0)))
source_ports_lem_example = source_ports_lem (listening ∷ [])

referenced_secrets_two :
    referenced_secrets two_pipelines.pipelines ≡ "kafka-creds" ∷ "os-creds" ∷ []
unfolding referenced_secrets string_eq
referenced_secrets_two = refl

referenced_secrets_lem_example :
    Distinct (referenced_secrets two_pipelines.pipelines)
    × ((n : String)
        → (n ∈ referenced_secrets two_pipelines.pipelines) ↔ Refers two_pipelines.pipelines n)
referenced_secrets_lem_example = referenced_secrets_lem two_pipelines.pipelines

credential_env_vars-referenced_example :
    All
      (λ v. v.secret_name ∈ referenced_secrets two_pipelines.pipelines)
      (credential_env_vars two_pipelines.pipelines)
credential_env_vars-referenced_example = credential_env_vars-referenced two_pipelines.pipelines
