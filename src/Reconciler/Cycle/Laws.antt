-- ===== src/Reconciler/Cycle/Laws.antt =====
-- A run.
use text.Mathlib.TextPositions.{len-append}
use dataprepper_operator.Base.{
  ◌≡◌, ◌≢◌, ap, len, refl, arith, String, ◌<>◌, false, true, none, List, All, ◌==◌, string_eq,
  nat_eq, ℕ_discrete,
}
use dataprepper_operator.Base.Dict.{Dict}
use dataprepper_operator.Base.Result.{ok}
use dataprepper_operator.Base.Int.{ℤ}
use dataprepper_operator.Api.Pipeline.{DataPrepperPipelineSpec}
use dataprepper_operator.Discovery.Rollout.{OwnerReference}
use dataprepper_operator.Workload.{
  Owner, ServicePort, generate_deployment, generate_service, generate_headless_service,
}
use dataprepper_operator.Reconciler.Resources.{
  Key, monitor_kind, key_eq, Spec, service_spec, cluster_ip_of,
}
use dataprepper_operator.Reconciler.Resources.Settled.{IsStable}
use dataprepper_operator.Reconciler.Planning.{Client, Libraries, Plan, wanted}
use dataprepper_operator.Reconciler.Cycle.{apply}
use dataprepper_operator.Reconciler.Resources.Server.{
  IsFilled, as_sent, allocated, IsServer, IsAvailable, IsController,
}
use dataprepper_operator.Reconciler.Cycle.Writes.{
  Apart, AllSettled, apply-IsSettled, apply-total, apply-again,
}

differs : (a b : String) → a ≢ b → (a == b) ≡ false
differs a b n = ground arith

config_maps-apart : (n : String) → (n <> "-config") == (n <> "-pipelines") ≡ false
config_maps-apart n =
    differs (n <> "-config") (n <> "-pipelines")
      (λ e. omega (arith, ap len e, len-append n "-config", len-append n "-pipelines"))

headless-apart : (n : String) → (n <> "-headless") == n ≡ false
headless-apart n =
    differs (n <> "-headless") n (λ e. omega (arith, ap len e, len-append n "-headless"))

pub wanted-Apart :
    (decimal : ℤ → String) (owner : Owner) (spec : DataPrepperPipelineSpec) (plan : Plan)
    → Apart (wanted decimal owner spec plan)
unfolding wanted generate_deployment generate_service string_eq ℕ_discrete
wanted-Apart decimal owner spec plan = (
  (config_maps-apart owner.name, (refl, (refl, (refl, (refl, (refl, tt)))))),
  (
    (refl, (refl, (refl, (refl, (refl, tt))))),
    (
      (refl, (refl, (refl, (refl, tt)))),
      (
        (headless-apart owner.name, (refl, (refl, tt))),
        ((refl, (refl, tt)), ((refl, tt), (tt, tt))),
      ),
    ),
  ),
)

-- Nothing is filled in but the cluster IP of a Service.
kept_as_sent :
    (s kept : Spec)
    → ((type : String) (selector : Dict String) (ports : List ServicePort)
        → s ≢ service_spec type "" selector ports)
    → IsFilled s kept
    → kept ≡ s
kept_as_sent s kept closed (as_sent _) = refl
kept_as_sent s kept closed (allocated type ip selector ports) =
    absurd (closed type selector ports refl)

service_kept :
    (type ip : String) (selector : Dict String) (ports : List ServicePort) (kept : Spec)
    → IsFilled (service_spec type ip selector ports) kept
    → kept ≡ service_spec type (cluster_ip_of kept) selector ports
service_kept type ip selector ports kept (as_sent _) = refl
service_kept type ip selector ports kept (allocated _ _ _ _) = refl

none-ne : ◌≢◌ {A = String} "None" ""
unfolding string_eq
none-ne e = let opened : false ≡ true = ap (λ (ip : String). ip == "") e in cc

pub wanted-IsStable :
    (decimal : ℤ → String) (owner : Owner) (spec : DataPrepperPipelineSpec) (plan : Plan)
    → All (λ w. IsStable w.1) (wanted decimal owner spec plan)
unfolding wanted generate_headless_service
wanted-IsStable decimal owner spec plan = (
  λ s kept. kept_as_sent _ kept (λ type selector ports e. cc),
  (
    λ s kept. kept_as_sent _ kept (λ type selector ports e. cc),
    (
      λ s kept. kept_as_sent _ kept (λ type selector ports e. cc),
      (
        λ s kept. service_kept _ _ _ _ kept,
        (
          λ s kept. kept_as_sent _ kept (λ type selector ports e. none-ne (ap cluster_ip_of e)),
          (
            λ s kept. kept_as_sent _ kept (λ type selector ports e. cc),
            (λ s kept. kept_as_sent _ kept (λ type selector ports e. cc), tt),
          ),
        ),
      ),
    ),
  ),
)

-- The key of the monitor, which is not among the others.
abbrev pub monitor_key : Owner → Key
monitor_key owner = record { kind = monitor_kind; name = owner.name }

pub wanted-Elsewhere :
    (decimal : ℤ → String) (owner : Owner) (spec : DataPrepperPipelineSpec) (plan : Plan)
    → All (λ w. key_eq (monitor_key owner) w.1.key ≡ false) (wanted decimal owner spec plan)
unfolding wanted ℕ_discrete
wanted-Elsewhere decimal owner spec plan =
    (refl, (refl, (refl, (refl, (refl, (refl, (refl, tt)))))))

module _ {Cluster : Type 0} (client : Client Cluster) (libraries : Libraries)
    (server : IsServer client.objects) where
  -- On an API server that answers every call and refuses no object, for a pipeline whose owner
  -- reference can be set: the writes of a plan end without an error, each object is then as the plan wants it, and the writes
  -- of the same plan, done again, end without an error and change no object.
  pub wanted-converges :
      (owner : Owner) (spec : DataPrepperPipelineSpec) (plan : Plan) (c : Cluster)
      → IsAvailable client.objects
      → IsController libraries.set_controller_reference
      → ((refs : List OwnerReference)
          → (after : List OwnerReference) × (libraries.set_controller_reference refs ≡ ok after))
      → (let ws = wanted libraries.decimal owner spec plan in
          let first = apply client libraries ws c in
          let second = apply client libraries ws first.1 in
          (first.0 ≡ none)
          × AllSettled client libraries server ws first.1
          × (second.0 ≡ none)
          × ((k : Key) → client.objects.get k second.1 ≡ client.objects.get k first.1))
  wanted-converges owner spec plan c available controller owns =
      let ws = wanted libraries.decimal owner spec plan in
      let first = apply client libraries ws c in
      let done = apply-total client libraries server ws c available owns in
      let again = apply-total client libraries server ws first.1 available owns in
      let settled =
        apply-IsSettled client libraries server ws c controller
          (wanted-IsStable libraries.decimal owner spec plan)
          (wanted-Apart libraries.decimal owner spec plan) done in
      (done, settled, again, λ k. apply-again client libraries server ws first.1 k settled again)
