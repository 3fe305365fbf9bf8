-- ===== src/Core/Sizes/Examples.antt =====
-- The theorems on storage-core/src/model/sizes.rs at concrete sizes.
use pdisks.Base.{◌+◌, ◌*◌, ◌≤◌, ◌<◌, ◌≡◌, ◌⊎◌, ◌↔◌, refl, [], ◌∷◌, ok, err, arith, u64_max}
use pdisks.Core.Sizes.{
  overflow, out_of_bounds, sum_checked, range_within, sectors_512, from_sectors_512,
}
use pdisks.Core.Sizes.Laws.{
  sum, sum_checked_exact, range_within_correct, sectors_round_trip, from_sectors_least,
}

sum_checked_exact_example :
    ((sum (512 ∷ 4096 ∷ []) ≤ u64_max)
      × (sum_checked (512 ∷ 4096 ∷ []) ≡ ok (sum (512 ∷ 4096 ∷ []))))
    ⊎ ((u64_max < sum (512 ∷ 4096 ∷ [])) × (sum_checked (512 ∷ 4096 ∷ []) ≡ err overflow))
sum_checked_exact_example = sum_checked_exact (512 ∷ 4096 ∷ [])

range_within_correct_example :
    ((4 + 7 ≤ 10) ↔ (range_within 4 7 10 ≡ ok (4 + 7)))
    × ((u64_max < 4 + 7) ↔ (range_within 4 7 10 ≡ err overflow))
    × ((10 < 4 + 7) × (4 + 7 ≤ u64_max) → range_within 4 7 10 ≡ err (out_of_bounds 4 (4 + 7) 10))
range_within_correct_example = range_within_correct 4 7 10 (omega arith)

three_mib : sectors_512 3 ≡ ok 6144
unfolding sectors_512
three_mib = refl

sectors_round_trip_example :
    (from_sectors_512 6144 ≡ 3) × (6144 * 512 ≡ 3 * 1048576) × (3 * 1048576 ≤ u64_max)
sectors_round_trip_example = sectors_round_trip 3 6144 three_mib

from_sectors_least_example : (from_sectors_512 6145 ≤ 4) ↔ (6145 * 512 ≤ 4 * 1048576)
from_sectors_least_example = from_sectors_least 6145 4
