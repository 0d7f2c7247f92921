-- ===== src/Discovery/Policy.antt =====
-- The settings of a discovery and its backoff, datapreppersourcediscovery_controller.go.
-- Durations are nanoseconds. `parse_duration` (time.ParseDuration), `atoi` (the first result of
-- strconv.Atoi) and `itoa` are parameters.
pub mod Laws
use Prim.Native.Nat.{min}
use dataprepper_operator.Base.{
  ℕ, zero, suc, ◌+◌, ◌-◌, ◌*◌, ◌^◌, String, Bool, ◌==◌, string_eq, not, if◌then◌else◌, Option, none,
  some, List,
}
use dataprepper_operator.Base.Int.{ℤ, pos, negsuc, ◌+ℤ◌, to_int64}
use dataprepper_operator.Base.Dict.{Dict, lookup, insert, erase}
use dataprepper_operator.Api.Discovery.{
  DataPrepperSourceDiscoverySpec, KafkaDiscoverySpec, S3DiscoverySpec,
}

abbrev pub default_max_creations_per_cycle : ℕ
default_max_creations_per_cycle = 10

-- 30 seconds
abbrev pub default_poll_interval : ℤ
default_poll_interval = pos 30000000000

abbrev pub staged_rollout_requeue : ℤ
staged_rollout_requeue = pos 30000000000

-- 5 minutes
abbrev pub max_discovery_backoff : ℕ
max_discovery_backoff = 300000000000

abbrev pub discovery_failure_count_key : String
discovery_failure_count_key = "dataprepper.kaasops.io/failure-count"

unfoldable pub discovery_max_creations_per_cycle : DataPrepperSourceDiscoverySpec → ℕ
discovery_max_creations_per_cycle spec = elim spec.max_creations_per_cycle [
  | some (pos (suc n)) ↦ suc n
  | _ ↦ default_max_creations_per_cycle
]

unfoldable pub discovery_poll_interval : DataPrepperSourceDiscoverySpec → String
discovery_poll_interval spec = elim spec.kafka [
  | some kafka ↦ kafka.poll_interval
  | none ↦ elim spec.s3 [ some s3 ↦ s3.poll_interval | none ↦ "" ]
]

abbrev policy_or : String → String → String
policy_or policy default = if policy == "" then default else policy

abbrev s3_policy : Option S3DiscoverySpec → String
s3_policy none = "Delete"
s3_policy (some s3) = policy_or s3.cleanup_policy "Delete"

abbrev kafka_policy : Option KafkaDiscoverySpec → String → String
kafka_policy none default = default
kafka_policy (some kafka) default = policy_or kafka.cleanup_policy default

unfoldable pub discovery_cleanup_policy : DataPrepperSourceDiscoverySpec → String
discovery_cleanup_policy spec = kafka_policy spec.kafka (s3_policy spec.s3)

module _ (parse_duration : String → Option ℤ) where
  unfoldable pub parse_poll_interval : String → ℤ
  parse_poll_interval s =
      if s == ""
      then default_poll_interval
      else elim (parse_duration s) [ none ↦ default_poll_interval | some d ↦ d ]

-- `math.Pow` and the product are exact up to the cap, and above it they stay above it.
abbrev pub backoff : ℕ → ℕ
backoff k = min (30000000000 * 2 ^ k) max_discovery_backoff

unfoldable pub discovery_backoff : ℤ → ℕ
discovery_backoff (negsuc n) = 30000000000
discovery_backoff (pos zero) = 30000000000
discovery_backoff (pos (suc n)) = backoff n

module _ (atoi : String → ℤ) (itoa : ℤ → String) where
  abbrev pub failure_count : Dict String → ℤ
  failure_count annotations = elim (lookup discovery_failure_count_key annotations) [
    | none ↦ atoi ""
    | some text ↦ atoi text
  ]

  -- The annotations with the count that is one higher, and that count. It is an `int` of 64 bits,
  -- which wraps around.
  unfoldable pub increment_failure_count : Dict String → ℤ × Dict String
  unfolding to_int64
  increment_failure_count annotations =
      let count = to_int64 (failure_count annotations +ℤ pos 1) in
      (count, insert discovery_failure_count_key (itoa count) annotations)

unfoldable pub reset_failure_count : Dict String → Dict String
reset_failure_count annotations = erase discovery_failure_count_key annotations
