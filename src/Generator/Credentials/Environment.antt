-- ===== src/Generator/Credentials/Environment.antt =====
-- The environment of the container, from `credentialEnvVars` of internal/generator/deployment.go.
use dataprepper_operator.Base.{
  ◌≡◌, refl, inl, inr, String, Option, none, some, List, [], ◌∷◌, ◌++◌, ◌∈◌, string_eq, All,
  All-append, Bool-cases, if_ind,
}
use dataprepper_operator.Api.Common.{SinkSpec}
use dataprepper_operator.Api.Pipeline.{PipelineDefinition}
use dataprepper_operator.Generator.Credentials.{
  EnvVar, Found, kafka_source_secret, s3_source_secret, kafka_sink_secret, open_search_sink_secret,
  s3_sink_secret, add_kafka, add_os, add_s3, all_found, add_sink, add_sinks, add_definition,
  add_definitions, nothing_found, credential_env_vars, referenced_secrets, kafka_vars, os_vars,
  s3_vars,
}
use dataprepper_operator.Generator.Credentials.Laws.{
  SinkRefers, SinksRefer, Refers, referenced_secrets_lem,
}

-- Properties of the loop's variables that each of its three kinds of append keeps.
pub record IsKept (P : Found → Type 0) (R : String → Type 0) : Type 0 where
  pub kafka : (n : String) (f : Found) → R n → P f → P (add_kafka (some n) f)
  pub os : (n : String) (f : Found) → R n → P f → P (add_os (some n) f)
  pub s3 : (n : String) (f : Found) → R n → P f → P (add_s3 (some n) f)

module _ {P : Found → Type 0} {R : String → Type 0} (kept : IsKept P R) where
  keep_kafka :
      (o : Option String) (f : Found) → ((n : String) → o ≡ some n → R n) → P f → P (add_kafka o f)
  unfolding add_kafka
  keep_kafka none f r p = p
  keep_kafka (some n) f r p = kept.kafka n f (r n refl) p

  keep_os :
      (o : Option String) (f : Found) → ((n : String) → o ≡ some n → R n) → P f → P (add_os o f)
  unfolding add_os
  keep_os none f r p = p
  keep_os (some n) f r p = kept.os n f (r n refl) p

  keep_s3 :
      (o : Option String) (f : Found) → ((n : String) → o ≡ some n → R n) → P f → P (add_s3 o f)
  unfolding add_s3
  keep_s3 none f r p = p
  keep_s3 (some n) f r p = kept.s3 n f (r n refl) p

  keep_sink :
      (s : SinkSpec) (f : Found) → ((n : String) → SinkRefers s n → R n) → P f → P (add_sink s f)
  unfolding add_sink
  keep_sink s f r p =
      keep_s3 (s3_sink_secret s) _ (λ n e. r n (inr (inl e)))
        (keep_os (open_search_sink_secret s) _ (λ n e. r n (inr (inr e)))
          (keep_kafka (kafka_sink_secret s) f (λ n e. r n (inl e)) p))

  keep_sinks :
      (ss : List SinkSpec) (f : Found)
      → ((n : String) → SinksRefer ss n → R n)
      → P f
      → P (add_sinks ss f)
  unfolding add_sinks
  keep_sinks [] f r p = p
  keep_sinks (s ∷ ss) f r p =
      let first = keep_sink s f (λ n e. r n (inl e)) p in
      elim (Bool-cases (all_found (add_sink s f))) [
        | inl all ↦ rw all first
        | inr some_left ↦ rw some_left (keep_sinks ss (add_sink s f) (λ n e. r n (inr e)) first)
      ]

  keep_definition :
      (p : PipelineDefinition) (f : Found)
      → ((n : String) → kafka_source_secret p.source ≡ some n → R n)
      → ((n : String) → s3_source_secret p.source ≡ some n → R n)
      → ((n : String) → SinksRefer p.sink n → R n)
      → P f
      → P (add_definition p f)
  unfolding add_definition
  keep_definition p f k s r h =
      keep_sinks p.sink _ r
        (keep_s3 (s3_source_secret p.source) _ s (keep_kafka (kafka_source_secret p.source) f k h))

  pub keep_definitions :
      (ps : List PipelineDefinition) (f : Found)
      → ((n : String) → Refers ps n → R n)
      → P f
      → P (add_definitions ps f)
  unfolding add_definitions
  keep_definitions [] f r h = h
  keep_definitions (p ∷ ps) f r h =
      let first =
        keep_definition p f (λ n e. r n (inl e)) (λ n e. r n (inr (inl e)))
          (λ n e. r n (inr (inr (inl e)))) h in
      elim (Bool-cases (all_found (add_definition p f))) [
        | inl all ↦ rw all first
        | inr some_left ↦
            rw some_left
              (keep_definitions ps (add_definition p f) (λ n e. r n (inr (inr (inr e)))) first)
      ]

abbrev FromSecrets : (String → Type 0) → Found → Type 0
FromSecrets R f = All (λ v. R v.secret_name) f.envs

FromSecrets-IsKept : (R : String → Type 0) → IsKept (FromSecrets R) R
unfolding add_kafka add_os add_s3
FromSecrets-IsKept R = record {
  kafka = λ n f r h.
      if_ind (FromSecrets R) f.kafka_found _ _ (λ _. h)
        (λ _. longer f (kafka_vars n) h (r, (r, tt)));
  os = λ n f r h.
      if_ind (FromSecrets R) f.os_found _ _ (λ _. h) (λ _. longer f (os_vars n) h (r, (r, tt)));
  s3 = λ n f r h.
      if_ind (FromSecrets R) f.s3_found _ _ (λ _. h) (λ _. longer f (s3_vars n) h (r, (r, tt)));
}
  where
    longer :
        (f : Found) (vs : List EnvVar)
        → FromSecrets R f
        → All (λ v. R v.secret_name) vs
        → All (λ v. R v.secret_name) (f.envs ++ vs)
    longer f vs = All-append (λ v. R v.secret_name) f.envs vs

-- Each secret that the container's environment reads is among the referenced secrets, whose
-- content the reconciler hashes.
pub credential_env_vars-referenced :
    (ps : List PipelineDefinition)
    → All (λ v. v.secret_name ∈ referenced_secrets ps) (credential_env_vars ps)
unfolding credential_env_vars
credential_env_vars-referenced ps =
    keep_definitions (FromSecrets-IsKept (λ n. n ∈ referenced_secrets ps)) ps nothing_found
      (λ n r. ((referenced_secrets_lem ps).1 n).1 r) tt
