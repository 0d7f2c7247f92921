-- ===== src/Scaler/Laws.antt =====
-- Every partition has a consumer, and the bounds on the replicas are kept.
use native.Mathlib.Nat.{mul-div-le, lt-mul-div-succ, le-div_iff_mul-le}
use dataprepper_operator.Base.{ℕ, suc, dec_lt, ◌-◌, ◌+◌, ◌*◌, ◌/◌, ◌≤◌, ◌<◌, ◌≡◌, refl, ◌⊎◌, arith}
use dataprepper_operator.Base.Int.{ℤ, pos, negsuc, ◌≤ℤ◌}
use dataprepper_operator.Base.Result.{ok}
use dataprepper_operator.Scaler.{calculate_kafka, max_ℤ, min_ℤ}

-- What a decision for `p` partitions under the bounds `lo` and `hi` must meet, as numbers.
pub record IsPlan (p : ℕ) (hi lo : ℤ) (r w : ℕ) : Type 0 where
  pub at_least_min : lo ≤ℤ pos r
  pub at_most : (pos r ≤ℤ hi) × (r ≤ p) ⊎ (pos r ≡ lo)
  pub one_worker : 1 ≤ w
  pub covers : p ≤ r * w
  pub tight : r * w < p + r

ceil_covers : (p n : ℕ) → (p ≤ suc n * ((p + n) / suc n)) × (suc n * ((p + n) / suc n) < p + suc n)
ceil_covers p n =
    let low = mul-div-le (p + n) (suc n) in
    let high = lt-mul-div-succ (p + n) {b = suc n} (omega arith) in (grind arith, grind arith)

-- The number of replicas, as a positive number.
clamp_cases :
    (p : ℕ) (hi : ℤ) (lo : ℕ)
    → (r : ℕ) × (max_ℤ (min_ℤ (pos (suc p)) hi) (pos (suc lo)) ≡ pos (suc r))
      × (suc lo ≤ suc r)
      × ((pos (suc r) ≤ℤ hi) × (suc r ≤ suc p) ⊎ (suc r ≡ suc lo))
clamp_cases p (negsuc h) lo = (lo, ground arith, omega arith, ground arith)
clamp_cases p (pos h) lo = elim (dec_lt (suc lo) h) [
  | yes room ↦ elim (dec_lt p h) [
    | yes few ↦ elim (dec_lt lo p) [
      | yes above ↦ (p, ground arith, omega arith, ground arith)
      | no below ↦ (lo, ground arith, omega arith, ground arith)
    ]
    | no many ↦ (h - 1, ground arith, omega arith, ground arith)
  ]
  | no tight ↦ (lo, ground arith, omega arith, ground arith)
]

worker_cases :
    (p n : ℕ)
    → (w : ℕ) × (max_ℤ (pos ((suc p + n) / suc n)) (pos 1) ≡ pos w)
      × (1 ≤ w)
      × (w ≡ (suc p + n) / suc n)
worker_cases p n =
    let some_worker : 1 ≤ (suc p + n) / suc n =
      (le-div_iff_mul-le {k = suc n} {x = 1} (omega arith)).1 (omega arith) in
    ((suc p + n) / suc n, ground arith, some_worker, refl)

-- For a positive partition count and a positive minimum there is a decision. Its replicas are at
-- least the minimum, and at most the maximum and the partitions unless they are the minimum. The
-- workers of all replicas suffice for all partitions, and one worker less in each would not.
pub calculate_kafka-IsPlan :
    (inf : ℤ) (p : ℕ) (hi : ℤ) (lo : ℕ)
    → (r w : ℕ) × (calculate_kafka inf (pos (suc p)) hi (pos (suc lo))
        ≡ ok (record { replicas = pos r; topic_workers = pos w }))
      × IsPlan (suc p) hi (pos (suc lo)) r w
unfolding calculate_kafka
calculate_kafka-IsPlan inf p hi lo =
    let (r, re, above, below) = clamp_cases p hi lo in
    let (w, we, some_worker, exact) = worker_cases p r in
    let (low, high) = ceil_covers (suc p) r in
    (
      suc r,
      w,
      ground (arith, re, we),
      record {
        at_least_min = omega arith;
        at_most = ground arith;
        one_worker = some_worker;
        covers = rw exact low;
        tight = rw exact high;
      },
    )
