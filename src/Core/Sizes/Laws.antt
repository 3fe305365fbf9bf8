-- ===== src/Core/Sizes/Laws.antt =====
-- What checked sizes promise: exact sums, ranges inside the device, conversions without loss.
use pdisks.Base.{ℕ, ◌+◌, ◌*◌, ◌≤◌, ◌<◌, ◌≡◌, ◌↔◌, ◌⊎◌, List, [], ◌∷◌, ok, err, arith, u64_max}
use pdisks.Core.Sizes.{
  Bytes, Mib, overflow, out_of_bounds, bytes_add, sum_from, sum_checked, range_within, sectors_512,
  from_sectors_512,
}

-- The sum without a machine bound.
pub sum : List Bytes → ℕ
sum [] = 0
sum (x ∷ xs) = x + sum xs

bytes_add-cases :
    (a b : Bytes)
    → ((a + b ≤ u64_max) × (bytes_add a b ≡ ok (a + b)))
      ⊎ ((u64_max < a + b) × (bytes_add a b ≡ err overflow))
unfolding bytes_add
bytes_add-cases a b = ground arith

sum_from_exact :
    (total : Bytes) (xs : List Bytes)
    → total ≤ u64_max
    → ((total + sum xs ≤ u64_max) × (sum_from total xs ≡ ok (total + sum xs)))
      ⊎ ((u64_max < total + sum xs) × (sum_from total xs ≡ err overflow))
unfolding sum sum_from
sum_from_exact total [] h = ground arith
sum_from_exact total (x ∷ xs) h =
    ground (arith, bytes_add-cases total x, sum_from_exact (total + x) xs)

-- The checked sum of any list is the exact sum when that fits in a u64, and the overflow error
-- in every other case.
pub sum_checked_exact :
    (xs : List Bytes)
    → ((sum xs ≤ u64_max) × (sum_checked xs ≡ ok (sum xs)))
      ⊎ ((u64_max < sum xs) × (sum_checked xs ≡ err overflow))
unfolding sum_checked
sum_checked_exact xs = ground (arith, sum_from_exact 0 xs)

-- On a device whose size is a u64, `range_within` succeeds exactly for the ranges that lie in the
-- device, and then returns their end; it is the overflow error exactly when the end exceeds a u64,
-- and otherwise reports the range and the device.
pub range_within_correct :
    (start size device : Bytes)
    → device ≤ u64_max
    → ((start + size ≤ device) ↔ (range_within start size device ≡ ok (start + size)))
      × ((u64_max < start + size) ↔ (range_within start size device ≡ err overflow))
      × ((device < start + size) × (start + size ≤ u64_max)
          → range_within start size device ≡ err (out_of_bounds start (start + size) device))
unfolding range_within
range_within_correct start size device h = (
  (λ p. ground arith, λ p. ground arith),
  (λ p. ground arith, λ p. ground arith),
  λ p. ground arith,
)

-- Whole MiB survive the way to 512-byte sectors and back, and the sectors hold exactly their bytes.
pub sectors_round_trip :
    (m : Mib) (s : ℕ)
    → sectors_512 m ≡ ok s
    → (from_sectors_512 s ≡ m) × (s * 512 ≡ m * 1048576) × (m * 1048576 ≤ u64_max)
unfolding sectors_512 from_sectors_512
sectors_round_trip m s h = (ground arith, ground arith, ground arith)

-- `from_sectors_512` rounds up to the least number of MiB that holds the sectors.
pub from_sectors_least : (s : ℕ) (m : Mib) → (from_sectors_512 s ≤ m) ↔ (s * 512 ≤ m * 1048576)
unfolding from_sectors_512
from_sectors_least s m = (λ p. ground arith, λ p. ground arith)
