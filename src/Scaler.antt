-- ===== src/Scaler.antt =====
-- The scaling decision, internal/scaler/scaler.go.
-- The source divides in float64. For a numerator below 2 ^ 31 and a positive int32 divisor the
-- quotient is either exact or further from each integer than its rounding error, so `math.Ceil` is
-- the ceiling of the rational. Division by zero gives +Inf, whose conversion to int32 Go leaves to
-- the implementation: it is the parameter `int32_of_inf`.
pub mod Laws
use dataprepper_operator.Base.{ℕ, zero, suc, ◌+◌, ◌/◌, if◌then◌else◌, not}
use dataprepper_operator.Base.Int.{ℤ, pos, negsuc, ltb_ℤ}
use dataprepper_operator.Base.Result.{Result, ok, err}

pub record Scaling : Type 0 where
  pub replicas : ℤ
  pub topic_workers : ℤ

pub data ScalerError : Type 0 where
  invalid_partition_count : ℤ → ScalerError

abbrev pub min_ℤ : ℤ → ℤ → ℤ
min_ℤ a b = if ltb_ℤ b a then b else a

abbrev pub max_ℤ : ℤ → ℤ → ℤ
max_ℤ a b = if ltb_ℤ a b then b else a

abbrev pub neg_ℕ : ℕ → ℤ
neg_ℕ zero = pos 0
neg_ℕ (suc n) = negsuc n

unfoldable pub calculate_static : ℤ → Scaling
calculate_static fixed = record {
  replicas = if ltb_ℤ fixed (pos 1) then pos 1 else fixed;
  topic_workers = pos 0;
}

module _ (int32_of_inf : ℤ) where
  -- `int32(math.Ceil(float64(p) / float64(r)))` for `p` of at least 0.
  ceil_div : ℕ → ℤ → ℤ
  ceil_div p (pos zero) = int32_of_inf
  ceil_div p (pos (suc n)) = pos ((p + n) / suc n)
  ceil_div p (negsuc n) = neg_ℕ (p / suc n)

  unfoldable pub calculate_kafka :
      (partitions max_replicas min_replicas : ℤ) → Result ScalerError Scaling
  unfolding ceil_div
  calculate_kafka (negsuc p) hi lo = err (invalid_partition_count (negsuc p))
  calculate_kafka (pos zero) hi lo = err (invalid_partition_count (pos zero))
  calculate_kafka (pos (suc p)) hi lo =
      let replicas = max_ℤ (min_ℤ (pos (suc p)) hi) lo in
      ok (record { replicas = replicas; topic_workers = max_ℤ (ceil_div (suc p) replicas) (pos 1) })
