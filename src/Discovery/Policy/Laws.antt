-- ===== src/Discovery/Policy/Laws.antt =====
-- The backoff stays between its bounds, and the failure counter counts.
use Prim.Native.Nat.{min}
use dataprepper_operator.Base.{
  ℕ, zero, suc, ◌*◌, ◌^◌, ◌≤◌, ◌≡◌, arith, ap, ◌∙◌, String, none, string_eq, ◌==◌, false,
}
use dataprepper_operator.Base.Int.{ℤ, pos, negsuc, ◌+ℤ◌, ◌≤ℤ◌, to_int64, IsInt64, to_int64-IsInt64}
use dataprepper_operator.Base.Dict.{Dict, lookup, insert, lookup-insert, lookup-erase}
use dataprepper_operator.Discovery.Policy.{
  backoff, discovery_backoff, max_discovery_backoff, failure_count, increment_failure_count,
  reset_failure_count, discovery_failure_count_key,
}

two-pow_pos : (k : ℕ) → 1 ≤ 2 ^ k
two-pow_pos zero = omega arith
two-pow_pos (suc k) = grind (arith, two-pow_pos k)

two-pow_mono : (k m : ℕ) → k ≤ m → 2 ^ k ≤ 2 ^ m
two-pow_mono zero m h = two-pow_pos m
two-pow_mono (suc k) zero h = omega arith
two-pow_mono (suc k) (suc m) h = grind (arith, two-pow_mono k m)

backoff-low : (k : ℕ) → 30000000000 ≤ backoff k
backoff-low k = grind (arith, two-pow_pos k)

backoff_mono : (k m : ℕ) → k ≤ m → backoff k ≤ backoff m
backoff_mono k m h = grind (arith, two-pow_mono k m)

backoff_double : (k : ℕ) → backoff (suc k) ≡ min (2 * backoff k) max_discovery_backoff
backoff_double k = grind arith

discovery_backoff-low : (f : ℤ) → 30000000000 ≤ discovery_backoff f
unfolding discovery_backoff
discovery_backoff-low (negsuc n) = omega arith
discovery_backoff-low (pos zero) = omega arith
discovery_backoff-low (pos (suc n)) = backoff-low n

backoff_above : (n : ℕ) (more : ℤ) → pos (suc n) ≤ℤ more → backoff n ≤ discovery_backoff more
unfolding discovery_backoff
backoff_above n (negsuc m) h = omega arith
backoff_above n (pos zero) h = omega arith
backoff_above n (pos (suc m)) h = backoff_mono n m (omega arith)

pos_next : (n : ℕ) → pos (suc n) +ℤ pos 1 ≡ pos (suc (suc n))
unfolding ◌+ℤ◌
pos_next n = ground arith

next_backoff :
    (n : ℕ) → discovery_backoff (pos (suc n) +ℤ pos 1) ≡ min (2 * backoff n) max_discovery_backoff
unfolding discovery_backoff
next_backoff n = ap discovery_backoff (pos_next n) ∙ backoff_double n

-- The delay is at least 30 seconds and at most 5 minutes, more failures never shorten it, and each
-- further failure doubles it until it reaches the 5 minutes.
pub discovery_backoff_lem :
    (failures : ℤ)
    → (30000000000 ≤ discovery_backoff failures)
      × (discovery_backoff failures ≤ max_discovery_backoff)
      × ((more : ℤ) → failures ≤ℤ more → discovery_backoff failures ≤ discovery_backoff more)
      × (pos 1 ≤ℤ failures
          → discovery_backoff (failures +ℤ pos 1)
            ≡ min (2 * discovery_backoff failures) max_discovery_backoff)
unfolding discovery_backoff
discovery_backoff_lem (negsuc n) =
    (omega arith, omega arith, λ more h. discovery_backoff-low more, λ h. ground arith)
discovery_backoff_lem (pos zero) =
    (omega arith, omega arith, λ more h. discovery_backoff-low more, λ h. ground arith)
discovery_backoff_lem (pos (suc n)) =
    (backoff-low n, omega arith, λ more h. backoff_above n more h, λ h. next_backoff n)

module _ (atoi : String → ℤ) (itoa : ℤ → String)
    (round_trip : (n : ℤ) → IsInt64 n → atoi (itoa n) ≡ n) where
  stored :
      (n : ℤ) (annotations : Dict String)
      → IsInt64 n
      → failure_count atoi itoa (insert discovery_failure_count_key (itoa n) annotations) ≡ n
  stored n annotations h = ground (
    arith,
    lookup-insert discovery_failure_count_key discovery_failure_count_key (itoa n) annotations,
    round_trip n h,
  )

  -- Where reading a printed count of 64 bits gives the count: after two failures in a row the count
  -- is one higher than after the first, in 64 bits with wrap-around, other annotations are kept, and
  -- after a reset the counter is not there.
  pub increment_failure_count_lem :
      (annotations : Dict String)
      → (let (count, next) = increment_failure_count atoi itoa annotations in
          ((increment_failure_count atoi itoa next).0 ≡ to_int64 (count +ℤ pos 1))
          × ((key : String)
              → (discovery_failure_count_key == key) ≡ false
              → lookup key next ≡ lookup key annotations)
          × (lookup discovery_failure_count_key (reset_failure_count next) ≡ none))
  unfolding increment_failure_count reset_failure_count
  increment_failure_count_lem annotations =
      let count = to_int64 (failure_count atoi itoa annotations +ℤ pos 1) in
      (
        ap (λ n. to_int64 (n +ℤ pos 1))
            (stored count annotations
              (to_int64-IsInt64 (failure_count atoi itoa annotations +ℤ pos 1))),
        λ key other.
            ground (arith, lookup-insert discovery_failure_count_key key (itoa count) annotations),
        ground (
          arith,
          lookup-erase discovery_failure_count_key discovery_failure_count_key
              (insert discovery_failure_count_key (itoa count) annotations),
        ),
      )
